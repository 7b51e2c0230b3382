-- ===== src/Setup/Changes.antt =====
-- What one menu command of apps/api/app/services/store_setup_service.py does to the branches' rows.
use sweetops.Base.{
  ℕ, ◌≡◌, refl, ◌≤◌, ◌∙◌, sym, ap, Bool, true, false, Option, none, List, ◌∷◌, ◌==◌, arith, find,
  map, inl, inr, Bool-cases, Option-cases, ok, >>=-eq-ok,
}
use sweetops.Int.{ℤ}
use sweetops.Text.{Text}
use sweetops.Quantity.{Decimal}
use sweetops.Setup.{Product, StoreProduct, Catalog, is_offering, offering}
use sweetops.Setup.Menu.{
  Actor, PublicationResult, product_or_404, new_offering, publish_product, delete_offering,
  unpublish_product, replace_offering, set_availability, set_sort_order, require_sort_order,
  create_product, update_product, same_flag, offer_if, add_product, new_product, clean_name,
  check_price, update_name, update_price,
}
use sweetops.Setup.Branches.{
  rows_of, count_offering, find-is_offering, none-count_offering, delete-rows_of, replace-rows_of,
  delete-fewer, replace-same,
}

-- What a command of a branch does to the publication rows.
pub data Change (store : ℕ) (os os' : List StoreProduct) : Type 0 where
  stays : os ≡ os' → Change store os os'
  inserts :
      (o : StoreProduct)
      → o.store_id ≡ store
      → find (is_offering store o.product_id) os ≡ none
      → o ∷ os ≡ os'
      → Change store os os'
  deletes : (product : ℕ) → delete_offering store product os ≡ os' → Change store os os'
  replaces :
      (row : StoreProduct)
      → row.store_id ≡ store
      → map (replace_offering row) os ≡ os'
      → Change store os os'

pub Change-rows_of :
    (store branch : ℕ) (os os' : List StoreProduct)
    → (store == branch) ≡ false
    → Change store os os'
    → rows_of branch os' ≡ rows_of branch os
Change-rows_of store branch os os' apart (stays e) = ap (rows_of branch) (sym e)
Change-rows_of store branch os os' apart (inserts o mine new e) =
    let other : (o.store_id == branch) ≡ false = rw mine apart in
    ap (rows_of branch) (sym e) ∙ rw other refl
Change-rows_of store branch os os' apart (deletes product e) =
    ap (rows_of branch) (sym e) ∙ delete-rows_of store product branch os apart
Change-rows_of store branch os os' apart (replaces row mine e) =
    let other : (row.store_id == branch) ≡ false = rw mine apart in
    ap (rows_of branch) (sym e) ∙ replace-rows_of row branch os other

pub Change-count :
    (store s p : ℕ) (os os' : List StoreProduct)
    → count_offering s p os ≤ 1
    → Change store os os'
    → count_offering s p os' ≤ 1
Change-count store s p os os' one (stays e) = rw⁻¹ e one
Change-count store s p os os' one (inserts o mine new e) =
    let none_left = none-count_offering store o.product_id os new in
    rw⁻¹ e (elim (Bool-cases (is_offering s p o)) [
      | inr apart ↦ rw apart (omega (arith, one))
      | inl same ↦
          let a : store ≡ s = ground arith in
          let b : o.product_id ≡ p = ground arith in
          let z : count_offering s p os ≡ 0 = rw (a, b) at none_left in rw same (omega (arith, z))
    ])
Change-count store s p os os' one (deletes product e) =
    rw⁻¹ e (omega (arith, one, delete-fewer store product s p os))
Change-count store s p os os' one (replaces row mine e) =
    rw⁻¹ e (omega (arith, one, replace-same row s p os))

pub publish-Change :
    (actor : Actor) (id : ℕ) (cat cat' : Catalog) (r : PublicationResult)
    → publish_product actor id cat ≡ ok (r, cat')
    → Change actor.store_id cat.store_products cat'.store_products
unfolding publish_product offering
publish-Change actor id cat cat' r h =
    let (product, _, h) = >>=-eq-ok (product_or_404 cat id) _ h in
    elim (Option-cases (find (is_offering actor.store_id id) cat.store_products)) [
      | inr (o, e) ↦ stays (ground (arith, e, h))
      | inl e ↦ inserts (new_offering actor.store_id id cat) refl e (ground (arith, e, h))
    ]

pub unpublish-Change :
    (actor : Actor) (id : ℕ) (cat cat' : Catalog) (r : PublicationResult)
    → unpublish_product actor id cat ≡ ok (r, cat')
    → Change actor.store_id cat.store_products cat'.store_products
unfolding unpublish_product offering
unpublish-Change actor id cat cat' r h =
    let (product, _, h) = >>=-eq-ok (product_or_404 cat id) _ h in
    elim (Option-cases (find (is_offering actor.store_id id) cat.store_products)) [
      | inl e ↦ stays (ground (arith, e, h))
      | inr (o, e) ↦ deletes id (ground (arith, e, h))
    ]

pub availability-Change :
    (actor : Actor) (id : ℕ) (flag : Bool) (cat cat' : Catalog) (r : PublicationResult)
    → set_availability actor id flag cat ≡ ok (r, cat')
    → Change actor.store_id cat.store_products cat'.store_products
unfolding set_availability offering
availability-Change actor id flag cat cat' r h =
    let (product, _, h) = >>=-eq-ok (product_or_404 cat id) _ h in
    elim (Option-cases (find (is_offering actor.store_id id) cat.store_products)) [
      | inl e ↦ absurd (ground (arith, e, h))
      | inr (o, e) ↦ elim (Bool-cases (same_flag o.is_available flag)) [
        | inl same ↦ stays (ground (arith, e, h))
        | inr apart ↦
            let mine = find-is_offering actor.store_id id o cat.store_products e in
            replaces (record o { is_available = flag }) (ground arith) (ground (arith, e, h))
      ]
    ]

pub sort_order-Change :
    (actor : Actor) (id : ℕ) (position : ℤ) (cat cat' : Catalog) (r : PublicationResult)
    → set_sort_order actor id position cat ≡ ok (r, cat')
    → Change actor.store_id cat.store_products cat'.store_products
unfolding set_sort_order offering
sort_order-Change actor id position cat cat' r h =
    let (n, _, h) = >>=-eq-ok (require_sort_order position) _ h in
    let (product, _, h) = >>=-eq-ok (product_or_404 cat id) _ h in
    elim (Option-cases (find (is_offering actor.store_id id) cat.store_products)) [
      | inl e ↦ absurd (ground (arith, e, h))
      | inr (o, e) ↦ elim (Bool-cases (o.sort_order == n)) [
        | inl same ↦ stays (ground (arith, e, h))
        | inr apart ↦
            let mine = find-is_offering actor.store_id id o cat.store_products e in
            replaces (record o { sort_order = n }) (ground arith) (ground (arith, e, h))
      ]
    ]

pub update-Change :
    (lower : Text → Text) (actor : Actor) (id : ℕ) (name category : Option Text)
    (price : Option Decimal) (active : Option Bool) (cat cat' : Catalog) (r : PublicationResult)
    → update_product lower actor id name category price active cat ≡ ok (r, cat')
    → Change actor.store_id cat.store_products cat'.store_products
unfolding update_product
update-Change lower actor id name category price active cat cat' r h =
    let (product, _, h) = >>=-eq-ok (product_or_404 cat id) _ h in
    let (new_name, _, h) = >>=-eq-ok (update_name lower name product cat) _ h in
    let (new_price, _, h) = >>=-eq-ok (update_price price product) _ h in stays (ground (arith, h))

offer_if-Change :
    (actor : Actor) (publish : Bool) (product : Product) (cat cat' : Catalog)
    (r : PublicationResult)
    → offer_if publish actor product cat ≡ ok (r, cat')
    → Change actor.store_id cat.store_products cat'.store_products
unfolding offer_if offering
offer_if-Change actor false product cat cat' r h = stays (ground (arith, h))
offer_if-Change actor true product cat cat' r h =
    elim (Option-cases (find (is_offering actor.store_id product.id) cat.store_products)) [
      | inr (o, e) ↦ absurd (ground (arith, e, h))
      | inl e ↦ inserts (new_offering actor.store_id product.id cat) refl e (ground (arith, e, h))
    ]

pub create-Change :
    (lower : Text → Text) (actor : Actor) (name : Text) (category : Option Text) (price : Decimal)
    (active publish : Bool) (cat cat' : Catalog) (r : PublicationResult)
    → create_product lower actor name category price active publish cat ≡ ok (r, cat')
    → Change actor.store_id cat.store_products cat'.store_products
unfolding create_product
create-Change lower actor name category price active publish cat cat' r h =
    let (clean, _, h) = >>=-eq-ok (clean_name name) _ h in
    let (cost, _, h) = >>=-eq-ok (check_price price) _ h in
    let product = new_product clean category cost active cat.next_id in
    offer_if-Change actor publish product (add_product product cat) cat' r (ground (arith, h))
