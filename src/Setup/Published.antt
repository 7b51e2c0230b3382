-- ===== src/Setup/Published.antt =====
-- The guests' menu of apps/api/app/services/menu_service.py against `on_customer_menu` of
-- store_setup_service.py.
use sweetops.Base.{
  ℕ, ◌≡◌, refl, ◌≤◌, ◌∙◌, sym, Bool, true, false, ◌&&◌, ◌||◌, some, List, [], ◌∷◌, ◌==◌, arith,
  if◌then◌else◌, find, inl, inr, Bool-cases, Option-cases,
}
use sweetops.Text.{Text}
use sweetops.Setup.{
  Product, StoreProduct, Catalog, is_product, is_offering, offering, is_available_offering,
  on_customer_menu, join_products, is_before, insert_row, order_rows, products_of,
  list_menu_products,
}
use sweetops.Setup.Branches.{count_offering, IsUnique}

abbrev pub has_product : ℕ → List Product → Bool
has_product id [] = false
has_product id (p ∷ ps) = p.id == id || has_product id ps

-- Some row of the branch offers the product today.
abbrev is_on : ℕ → ℕ → List StoreProduct → Bool
is_on store id [] = false
is_on store id (o ∷ os) = (is_offering store id o && o.is_available) || is_on store id os

is_on-none :
    (store id : ℕ) (os : List StoreProduct)
    → count_offering store id os ≡ 0
    → is_on store id os ≡ false
is_on-none store id [] h = refl
is_on-none store id (o ∷ os) h = elim (Bool-cases (is_offering store id o)) [
  | inl e ↦ absurd (let w = rw e at h in omega arith)
  | inr e ↦ rw e (is_on-none store id os (let w = rw e at h in omega arith))
]

is_on-find :
    (store id : ℕ) (os : List StoreProduct)
    → count_offering store id os ≤ 1
    → is_on store id os ≡ is_available_offering (find (is_offering store id) os)
is_on-find store id [] h = refl
is_on-find store id (o ∷ os) h = elim (Bool-cases (is_offering store id o)) [
  | inl e ↦
      let z : count_offering store id os ≡ 0 = (let w = rw e at h in omega arith) in
      let off = is_on-none store id os z in
      rw (e, off) (elim (Bool-cases o.is_available) [ inl a ↦ rw a refl | inr a ↦ rw a refl ])
  | inr e ↦ rw e (is_on-find store id os (let w = rw e at h in omega arith))
]

find-is_product :
    (id : ℕ) (p : Product) (ps : List Product) → find (is_product id) ps ≡ some p → p.id ≡ id
find-is_product id p [] h = absurd (ground arith)
find-is_product id p (q ∷ ps) h = ground (arith, find-is_product id p ps)

has_product-if :
    (id : ℕ) (shown : Bool) (row : StoreProduct × Product) (rows : List (StoreProduct × Product))
    → has_product id (products_of (if shown then row ∷ rows else rows))
      ≡ ((shown && (row.1.id == id)) || has_product id (products_of rows))
has_product-if id true row rows = refl
has_product-if id false row rows = refl

shown_here :
    (own available active others : Bool)
    → (((own && available && active) && true) || (others && active))
      ≡ (((own && true) && available || others) && active)
shown_here true true true others = refl
shown_here true true false true = refl
shown_here true true false false = refl
shown_here true false active others = refl
shown_here false available active others = refl

absent :
    (own available active others : Bool)
    → (((own && false) && available || others) && active) ≡ (others && active)
absent true available active others = refl
absent false available active others = refl

hidden : (own available active x : Bool) → (((own && available && active) && false) || x) ≡ x
hidden true true true x = refl
hidden true true false x = refl
hidden true false active x = refl
hidden false available active x = refl

join-has_product :
    (products : List Product) (store id : ℕ) (p : Product) (os : List StoreProduct)
    → find (is_product id) products ≡ some p
    → has_product id (products_of (join_products products store os))
      ≡ (is_on store id os && p.is_active)
unfolding join_products
join-has_product products store id p [] here = refl
join-has_product products store id p (o ∷ os) here =
    let ih = join-has_product products store id p os here in
    elim (Bool-cases (o.product_id == id)) [
      | inl a ↦
          let same : o.product_id ≡ id = ground arith in
          let e : find (is_product o.product_id) products ≡ some p = rw same here in
          let mine : (p.id == id) ≡ true =
            (let i = find-is_product id p products here in ground arith) in
          let split =
            has_product-if id (o.store_id == store && o.is_available && p.is_active) (o, p)
              (join_products products store os) in
          rw (e, join_products)
            (rw a (
              split
              ∙ rw (mine, ih)
                  (shown_here (o.store_id == store) o.is_available p.is_active
                    (is_on store id os))))
      | inr a ↦ elim (Option-cases (find (is_product o.product_id) products)) [
        | inl e ↦
            rw (e, join_products)
              (rw a (
                ih
                ∙ sym
                    (absent (o.store_id == store) o.is_available p.is_active (is_on store id os))))
        | inr (q, e) ↦
            let other : (q.id == id) ≡ false =
              (let i = find-is_product o.product_id q products e in rw i a) in
            let split =
              has_product-if id (o.store_id == store && o.is_available && q.is_active) (o, q)
                (join_products products store os) in
            rw (e, join_products)
              (rw a (
                split
                ∙ rw (other, ih)
                    (hidden (o.store_id == store) o.is_available q.is_active
                        (is_on store id os && p.is_active)
                      ∙ sym (
                          absent (o.store_id == store) o.is_available p.is_active
                            (is_on store id os)))))
      ]
    ]

swap : (a b c : Bool) → (a || (b || c)) ≡ (b || (a || c))
swap true true c = refl
swap true false c = refl
swap false b c = refl

module _ (name_before : Text → Text → Bool) where
  insert-has_product :
      (id : ℕ) (row : StoreProduct × Product) (rows : List (StoreProduct × Product))
      → has_product id (products_of (insert_row name_before row rows))
        ≡ (row.1.id == id || has_product id (products_of rows))
  unfolding insert_row
  insert-has_product id row [] = refl
  insert-has_product id row (r ∷ rows) =
      let ih = insert-has_product id row rows in
      elim (Bool-cases (is_before name_before r row)) [
        | inl e ↦
            rw (e, ih) (swap (r.1.id == id) (row.1.id == id) (has_product id (products_of rows)))
        | inr e ↦ rw e refl
      ]

  order-has_product :
      (id : ℕ) (rows : List (StoreProduct × Product))
      → has_product id (products_of (order_rows name_before rows))
        ≡ has_product id (products_of rows)
  unfolding order_rows
  order-has_product id [] = refl
  order-has_product id (row ∷ rows) =
      insert-has_product id row (order_rows name_before rows) ∙ rw (order-has_product id rows) refl

  -- While a branch has at most one publication row for a product, the guests' menu lists a product
  -- of the catalog exactly when `on_customer_menu` tells the setup screen that it is visible:
  -- published there, available today, and active in the chain.
  pub list_menu_products_iff :
      (cat : Catalog) (store id : ℕ) (p : Product)
      → IsUnique cat
      → find (is_product id) cat.products ≡ some p
      → has_product id (list_menu_products name_before cat store)
        ≡ on_customer_menu p (offering cat store id)
  unfolding list_menu_products on_customer_menu offering
  list_menu_products_iff cat store id p one here =
      order-has_product id (join_products cat.products store cat.store_products)
      ∙ join-has_product cat.products store id p cat.store_products here
      ∙ rw (is_on-find store id cat.store_products (one store id)) refl
