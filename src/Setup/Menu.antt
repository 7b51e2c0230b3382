-- ===== src/Setup/Menu.antt =====
-- The menu commands of apps/api/app/services/store_setup_service.py: create_product, update_product,
-- publish_product, unpublish_product, set_availability and set_sort_order.
use sweetops.Base.{
  ℕ, suc, Bool, true, false, not, ◌&&◌, ◌||◌, Option, none, some, List, [], ◌∷◌, ◌==◌, ltb,
  if◌then◌else◌, find, map, Result, ok, err, http, raise_if, product_name_required, invalid_price,
  product_name_taken, product_not_found, not_published, invalid_sort_order, integrity_error, ◌>>=◌,
  ◌>>◌,
}
use sweetops.Int.{ℤ, pos, negsuc, ltb_ℤ}
use sweetops.Text.{Text, text_eq, strip, is_empty}
use sweetops.Quantity.{Decimal, q2}
use sweetops.Inventory.Commands.{optional_text}
use sweetops.Setup.{
  Product, StoreProduct, SetupAction, created, updated, published, unpublished,
  availability_changed, sort_order_changed, Catalog, is_product, is_offering, offering,
}

-- The branch and the member of staff that a command comes from.
pub record Actor : Type 0 where
  pub store_id : ℕ
  pub user_id : ℕ

-- `MenuRow`, and whether the command changed anything.
pub record PublicationResult : Type 0 where
  pub product : Product
  pub row : Option StoreProduct
  pub changed : Bool

abbrev audit_setup : SetupAction → ℕ → ℕ → Catalog → Catalog
audit_setup action entity actor cat = record cat {
  audits = record { action = action; entity_id = entity; actor_id = actor } ∷ cat.audits;
}

-- `_product_or_404`
unfoldable pub product_or_404 : Catalog → ℕ → Result Product
product_or_404 cat id = elim (find (is_product id) cat.products) [
  | none ↦ err (http 404 product_not_found)
  | some p ↦ ok p
]

-- `_clean_name`
unfoldable pub clean_name : Text → Result Text
clean_name raw = do raise_if (is_empty (strip raw)) 422 product_name_required; ok (strip raw)

-- `_check_price`; the column has two places.
unfoldable pub check_price : Decimal → Result ℤ
check_price price = do
  raise_if (not (ltb_ℤ (pos 0) price.coefficient)) 422 invalid_price
  ok (q2 price)

-- `_next_sort_order`
unfoldable pub next_sort_order : ℕ → List StoreProduct → ℕ
next_sort_order store [] = 0
next_sort_order store (o ∷ os) =
    let rest = next_sort_order store os in
    if o.store_id == store && not (ltb o.sort_order rest) then suc o.sort_order else rest

-- `_insert_offering`
abbrev pub new_offering : ℕ → ℕ → Catalog → StoreProduct
new_offering store product cat = record {
  id = cat.next_id;
  store_id = store;
  product_id = product;
  is_available = true;
  sort_order = next_sort_order store cat.store_products;
}

abbrev pub insert_offering : ℕ → ℕ → Catalog → Catalog
insert_offering store product cat = record cat {
  store_products = new_offering store product cat ∷ cat.store_products;
  next_id = suc cat.next_id;
}

-- `publish_product`
unfoldable pub publish_product : Actor → ℕ → Catalog → Result (PublicationResult × Catalog)
publish_product actor id cat = do
  product ← product_or_404 cat id
  elim (offering cat actor.store_id id) [
    | some existing ↦ ok (record { product = product; row = some existing; changed = false }, cat)
    | none ↦ ok (
      record { product = product; row = some (new_offering actor.store_id id cat); changed = true },
      audit_setup published cat.next_id actor.user_id (insert_offering actor.store_id id cat),
    )
  ]

-- `db.delete(existing)`; a row is known by its branch and product, which are unique.
unfoldable pub delete_offering : ℕ → ℕ → List StoreProduct → List StoreProduct
delete_offering store product [] = []
delete_offering store product (o ∷ os) =
    let rest = delete_offering store product os in
    if is_offering store product o then rest else o ∷ rest

-- `unpublish_product`
unfoldable pub unpublish_product : Actor → ℕ → Catalog → Result (PublicationResult × Catalog)
unpublish_product actor id cat = do
  product ← product_or_404 cat id
  elim (offering cat actor.store_id id) [
    | none ↦ ok (record { product = product; row = none; changed = false }, cat)
    | some existing ↦ ok (
      record { product = product; row = none; changed = true },
      audit_setup unpublished existing.id actor.user_id
          (record cat { store_products = delete_offering actor.store_id id cat.store_products }),
    )
  ]

abbrev pub replace_offering : StoreProduct → StoreProduct → StoreProduct
replace_offering row o = if is_offering row.store_id row.product_id o then row else o

abbrev pub save_offering :
    SetupAction → Actor → Product → StoreProduct → Catalog → PublicationResult × Catalog
save_offering action actor product row cat = (
  record { product = product; row = some row; changed = true },
  audit_setup action row.id actor.user_id
      (record cat { store_products = map (replace_offering row) cat.store_products }),
)

abbrev pub same_flag : Bool → Bool → Bool
same_flag true b = b
same_flag false b = not b

-- `set_availability`
unfoldable pub set_availability : Actor → ℕ → Bool → Catalog → Result (PublicationResult × Catalog)
set_availability actor id is_available cat = do
  product ← product_or_404 cat id
  elim (offering cat actor.store_id id) [
    | none ↦ err (http 409 not_published)
    | some existing ↦ ok (
        if same_flag existing.is_available is_available
        then (record { product = product; row = some existing; changed = false }, cat)
        else save_offering availability_changed actor product
            (record existing { is_available = is_available }) cat)
  ]

-- `set_sort_order`
unfoldable pub require_sort_order : ℤ → Result ℕ
require_sort_order (pos n) = ok n
require_sort_order (negsuc _) = err (http 422 invalid_sort_order)

unfoldable pub set_sort_order : Actor → ℕ → ℤ → Catalog → Result (PublicationResult × Catalog)
set_sort_order actor id sort_order cat = do
  position ← require_sort_order sort_order
  product ← product_or_404 cat id
  elim (offering cat actor.store_id id) [
    | none ↦ err (http 409 not_published)
    | some existing ↦ ok (
        if existing.sort_order == position
        then (record { product = product; row = some existing; changed = false }, cat)
        else save_offering sort_order_changed actor product
            (record existing { sort_order = position }) cat)
  ]

-- The rows that create_product adds; a branch's row of a product is unique.
abbrev pub new_product : Text → Option Text → ℤ → Bool → ℕ → Product
new_product name category price is_active id = record {
  id = id;
  name = name;
  category = optional_text category;
  base_price = price;
  is_active = is_active;
}

abbrev pub add_product : Product → Catalog → Catalog
add_product product cat = record cat {
  products = product ∷ cat.products;
  next_id = suc cat.next_id;
}

unfoldable pub offer_if : Bool → Actor → Product → Catalog → Result (PublicationResult × Catalog)
offer_if true actor product cat = elim (offering cat actor.store_id product.id) [
  | some _ ↦ err (http 500 integrity_error)
  | none ↦ ok (
    record {
      product = product;
      row = some (new_offering actor.store_id product.id cat);
      changed = true;
    },
    audit_setup created product.id actor.user_id (insert_offering actor.store_id product.id cat),
  )
]
offer_if false actor product cat = ok (
  record { product = product; row = none; changed = true },
  audit_setup created product.id actor.user_id cat,
)

-- What update_product leaves of a field that is not given.
abbrev pub given_or {ℓ} : {A : Type ℓ} → Option A → A → A
given_or none old = old
given_or (some new) old = new

unfoldable pub update_price : Option Decimal → Product → Result ℤ
update_price none product = ok product.base_price
update_price (some price) product = check_price price

unfoldable pub update_category : Option Text → Product → Option Text
update_category none product = product.category
update_category (some category) product = optional_text (some category)

abbrev pub replace_product : Product → Product → Product
replace_product row p = if p.id == row.id then row else p

module _ (lower : Text → Text) where
  -- `_name_taken`
  abbrev pub is_same_name : Text → Option ℕ → Product → Bool
  is_same_name name none p = text_eq (lower p.name) (lower (strip name))
  is_same_name name (some excluded) p =
      text_eq (lower p.name) (lower (strip name)) && not (p.id == excluded)

  unfoldable pub name_taken : Text → Option ℕ → List Product → Bool
  name_taken name excluded [] = false
  name_taken name excluded (p ∷ ps) = is_same_name name excluded p || name_taken name excluded ps

  -- `create_product`
  unfoldable pub create_product :
      Actor
      → Text
      → Option Text
      → Decimal
      → Bool
      → Bool
      → Catalog
      → Result (PublicationResult × Catalog)
  create_product actor name category base_price is_active publish_to_current_store cat = do
    clean ← clean_name name
    price ← check_price base_price
    raise_if (name_taken clean none cat.products) 409 product_name_taken
    let product = new_product clean category price is_active cat.next_id
    offer_if publish_to_current_store actor product (add_product product cat)

  -- `update_product`
  unfoldable pub update_name : Option Text → Product → Catalog → Result Text
  update_name none product cat = ok product.name
  update_name (some name) product cat = do
    clean ← clean_name name
    raise_if (name_taken clean (some product.id) cat.products) 409 product_name_taken
    ok clean

  unfoldable pub update_product :
      Actor
      → ℕ
      → Option Text
      → Option Text
      → Option Decimal
      → Option Bool
      → Catalog
      → Result (PublicationResult × Catalog)
  update_product actor id name category base_price is_active cat = do
    product ← product_or_404 cat id
    new_name ← update_name name product cat
    price ← update_price base_price product
    let row : Product = record product {
      name = new_name;
      category = update_category category product;
      base_price = price;
      is_active = given_or is_active product.is_active;
    }
    ok (
      record { product = row; row = offering cat actor.store_id id; changed = true },
      audit_setup updated id actor.user_id
          (record cat { products = map (replace_product row) cat.products }),
    )
