-- ===== src/Setup/Isolation.antt =====
-- What the menu commands of apps/api/app/services/store_setup_service.py leave of the branches' rows, in any order.
use sweetops.Base.{ℕ, ◌≡◌, refl, ◌∙◌, Bool, false, Option, List, [], ◌∷◌, ◌==◌, Result, ok, err}
use sweetops.Int.{ℤ}
use sweetops.Text.{Text}
use sweetops.Quantity.{Decimal}
use sweetops.Setup.{Catalog}
use sweetops.Setup.Menu.{
  Actor, PublicationResult, publish_product, unpublish_product, set_availability, set_sort_order,
  create_product, update_product,
}
use sweetops.Setup.Branches.{rows_of, IsUnique}
use sweetops.Setup.Changes.{
  Change, stays, Change-rows_of, Change-count, publish-Change, unpublish-Change,
  availability-Change, sort_order-Change, update-Change, create-Change,
}

-- The staff's menu commands.
pub data Command : Type 0 where
  publishes : ℕ → Command
  unpublishes : ℕ → Command
  switches : ℕ → Bool → Command
  moves : ℕ → ℤ → Command
  creates : Text → Option Text → Decimal → Bool → Bool → Command
  updates : ℕ → Option Text → Option Text → Option Decimal → Option Bool → Command

-- What a list of commands leaves; one that raises changes nothing.
abbrev pub after_command : Result (PublicationResult × Catalog) → Catalog → Catalog
after_command (ok (_, cat')) cat = cat'
after_command (err _) cat = cat

-- Commands of other branches.
abbrev pub AllElsewhere : ℕ → List (Actor × Command) → Type 0
AllElsewhere branch [] = Unit
AllElsewhere branch ((actor, _) ∷ cs) =
    ((actor.store_id == branch) ≡ false) × AllElsewhere branch cs

module _ (lower : Text → Text) where
  abbrev pub command : Actor → Command → Catalog → Result (PublicationResult × Catalog)
  command actor (publishes id) cat = publish_product actor id cat
  command actor (unpublishes id) cat = unpublish_product actor id cat
  command actor (switches id is_available) cat = set_availability actor id is_available cat
  command actor (moves id sort_order) cat = set_sort_order actor id sort_order cat
  command actor (creates name category price is_active publish) cat =
      create_product lower actor name category price is_active publish cat
  command actor (updates id name category price is_active) cat =
      update_product lower actor id name category price is_active cat

  abbrev pub run : List (Actor × Command) → Catalog → Catalog
  run [] cat = cat
  run ((actor, c) ∷ cs) cat = run cs (after_command (command actor c cat) cat)

  command-Change :
      (actor : Actor) (c : Command) (cat cat' : Catalog) (r : PublicationResult)
      → command actor c cat ≡ ok (r, cat')
      → Change actor.store_id cat.store_products cat'.store_products
  command-Change actor (publishes id) cat cat' r = publish-Change actor id cat cat' r
  command-Change actor (unpublishes id) cat cat' r = unpublish-Change actor id cat cat' r
  command-Change actor (switches id flag) cat cat' r = availability-Change actor id flag cat cat' r
  command-Change actor (moves id n) cat cat' r = sort_order-Change actor id n cat cat' r
  command-Change actor (creates name category price active publish) cat cat' r =
      create-Change lower actor name category price active publish cat cat' r
  command-Change actor (updates id name category price active) cat cat' r =
      update-Change lower actor id name category price active cat cat' r

  after_command-Change :
      (actor : Actor) (c : Command) (cat : Catalog)
      → Change actor.store_id cat.store_products
          (after_command (command actor c cat) cat).store_products
  after_command-Change actor c cat = go (command actor c cat) refl
    where
      go :
          (r : Result (PublicationResult × Catalog))
          → command actor c cat ≡ r
          → Change actor.store_id cat.store_products (after_command r cat).store_products
      go (ok (r, cat')) e = command-Change actor c cat cat' r e
      go (err _) e = stays refl

  -- Whatever the staff of other branches do to their menus and to the catalog, in any order, a
  -- branch's publication rows stay as they are: which products, whether available, in which order.
  pub run-rows_of :
      (branch : ℕ) (cs : List (Actor × Command)) (cat : Catalog)
      → AllElsewhere branch cs
      → rows_of branch (run cs cat).store_products ≡ rows_of branch cat.store_products
  run-rows_of branch [] cat _ = refl
  run-rows_of branch ((actor, c) ∷ cs) cat (apart, others) =
      let next = after_command (command actor c cat) cat in
      run-rows_of branch cs next others
      ∙ Change-rows_of actor.store_id branch cat.store_products next.store_products apart
          (after_command-Change actor c cat)

  run-IsUnique :
      (cs : List (Actor × Command)) (cat : Catalog) → IsUnique cat → IsUnique (run cs cat)
  run-IsUnique [] cat one = one
  run-IsUnique ((actor, c) ∷ cs) cat one =
      let next = after_command (command actor c cat) cat in
      run-IsUnique cs next (λ s p.
        Change-count actor.store_id s p cat.store_products next.store_products (one s p)
          (after_command-Change actor c cat))
