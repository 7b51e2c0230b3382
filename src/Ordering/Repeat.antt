-- ===== src/Ordering/Repeat.antt =====
-- Idempotency keys in create_order of apps/api/app/services/order_service.py.
use sweetops.Base.{
  ℕ, suc, ◌≡◌, refl, Bool, false, Option, none, some, List, [], ◌∷◌, arith, ok, >>=-eq-ok, inl, inr,
  Option-cases, sym, ◌∙◌,
}
use sweetops.Text.{Text, text_eq_refl, is_empty}
use sweetops.Inventory.Lifecycle.{check_availability, reserve_for_order}
use sweetops.Ordering.{
  OrderCreateRequest, Shop, Race, required_totals, line_requirements, unit_of, key_owner,
  fast_owner, set_key, derive_order_context, resolve_menu_products, ingredient_ids,
  check_ingredients, place_order, commit_order, order_under_lock, new_order_request, create_order,
}

set_key_lem :
    (key : Option Text) (id : ℕ) (keys : Text → Option ℕ) (k : Text)
    → key ≡ some k
    → set_key key id keys k ≡ some id
set_key_lem none id keys k e = cc
set_key_lem (some key) id keys k e = let h = text_eq_refl k in let e' : key ≡ k = cc in rw (e', h)

module _ (req : OrderCreateRequest) (key : Text) (e : req.idempotency_key ≡ some key) where
  key_owner_lem : (shop : Shop) → key_owner req.idempotency_key shop ≡ shop.order_keys key
  key_owner_lem shop = rw e refl

  place_order-key :
      (store : ℕ) (table : Option ℕ) (seen shop : Shop) (r : ℕ × Shop)
      → place_order req store table seen shop ≡ ok r
      → r.1.order_keys key ≡ some r.0
  unfolding place_order
  place_order-key store table seen shop r h =
      let (inv, _, h1) =
        >>=-eq-ok
          (reserve_for_order store shop.next_id (unit_of seen.inventory)
            (line_requirements seen.inventory (suc shop.next_id) req.items) shop.inventory)
          _ h in
      let s = set_key_lem req.idempotency_key shop.next_id shop.order_keys key e in ground arith

  commit_order-key :
      (store : ℕ) (table : Option ℕ) (seen shop : Shop) (r : ℕ × Shop)
      → commit_order req store table seen shop ≡ ok r
      → r.1.order_keys key ≡ some r.0
  unfolding commit_order
  commit_order-key store table seen shop r h =
      elim (Option-cases (key_owner req.idempotency_key shop)) [
        | inr (winner, f) ↦
            let h' = rw (f, commit_order) at h in
            let k = sym (key_owner_lem shop) ∙ f in ground arith
        | inl f ↦ place_order-key store table seen shop r (rw (f, commit_order) at h)
      ]

  lock-key :
      (race : Race) (store : ℕ) (table : Option ℕ) (seen locked : Shop) (r : ℕ × Shop)
      → order_under_lock race req store table seen locked ≡ ok r
      → r.1.order_keys key ≡ some r.0
  unfolding order_under_lock
  lock-key race store table seen locked r h = go _ refl
    where
      go :
          (short : List ℕ)
          → check_availability
              (locked.inventory.stock store)
              (required_totals seen.inventory req.items [])
            ≡ short
          → r.1.order_keys key ≡ some r.0
      go [] f =
          commit_order-key store table seen (race.before_commit locked) r
            (rw (f, order_under_lock) at h)
      go (i ∷ is) f = absurd (let h' = rw (f, order_under_lock) at h in cc)

  create_order-key :
      (sha256 : Text → Text) (allow_legacy : Bool) (race : Race) (shop : Shop) (r : ℕ × Shop)
      → is_empty key ≡ false
      → create_order sha256 allow_legacy race req shop ≡ ok r
      → r.1.order_keys key ≡ some r.0
  unfolding create_order new_order_request
  create_order-key sha256 allow_legacy race shop r given h =
      elim (Option-cases (fast_owner req.idempotency_key shop)) [
        | inr (existing, f) ↦
            let h' = rw (f, create_order) at h in
            let f' : shop.order_keys key ≡ some existing = rw (e, given) at f in ground arith
        | inl f ↦
            let ((store, table), _, h1) =
              >>=-eq-ok (derive_order_context sha256 allow_legacy req shop) _
                (rw (f, create_order, new_order_request) at h) in
            let (_, _, h2) = >>=-eq-ok (resolve_menu_products shop store req.items) _ h1 in
            let (_, _, h3) =
              >>=-eq-ok (check_ingredients shop.inventory (ingredient_ids req.items)) _ h2 in
            lock-key race store table shop (race.before_lock shop) r h3
      ]

-- create_order is idempotent under its Idempotency-Key: once a call with a non-empty key has
-- succeeded, a later call with the key, whatever it asks for, answers with the same order and writes
-- nothing, in the tables that the first call left and in any later ones that still have its key.
pub create_order-create_order :
    (sha256 : Text → Text) (allow_legacy : Bool) (race race' : Race)
    (req again : OrderCreateRequest) (key : Text) (shop shop' later : Shop) (id : ℕ)
    → req.idempotency_key ≡ some key
    → again.idempotency_key ≡ some key
    → is_empty key ≡ false
    → create_order sha256 allow_legacy race req shop ≡ ok (id, shop')
    → later.order_keys key ≡ shop'.order_keys key
    → create_order sha256 allow_legacy race' again later ≡ ok (id, later)
unfolding create_order
create_order-create_order sha256 allow_legacy race race' req again key shop shop' later id e e'
      given h kept =
    let f = kept ∙ create_order-key req key e sha256 allow_legacy race shop (id, shop') given h in
    let found : fast_owner again.idempotency_key later ≡ some id = rw (e', given) f in
    rw (found, create_order) refl
