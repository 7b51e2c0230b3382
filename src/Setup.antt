-- ===== src/Setup.antt =====
-- A branch's customer menu, of apps/api/app/services/store_setup_service.py and menu_service.py: the
-- rows of models/product.py and models/store_product.py, `on_customer_menu` and
-- list_menu_products. Prices are in hundredths. The order of names is the database's.
pub mod Branches
pub mod Changes
pub mod Isolation
pub mod Published
pub mod Menu
use sweetops.Base.{
  ℕ, Bool, true, false, ◌&&◌, ◌||◌, Option, none, some, List, [], ◌∷◌, ◌==◌, ltb, if◌then◌else◌,
  find,
}
use sweetops.Int.{ℤ}
use sweetops.Text.{Text, text_eq}

pub record Product : Type 0 where
  pub id : ℕ
  pub name : Text
  pub category : Option Text
  pub base_price : ℤ
  pub is_active : Bool

pub record StoreProduct : Type 0 where
  pub id : ℕ
  pub store_id : ℕ
  pub product_id : ℕ
  pub is_available : Bool
  pub sort_order : ℕ

pub data SetupAction : Type 0 where
  created updated published unpublished availability_changed sort_order_changed : SetupAction

pub record SetupAudit : Type 0 where
  pub action : SetupAction
  pub entity_id : ℕ
  pub actor_id : ℕ

pub record Catalog : Type 0 where
  pub products : List Product
  pub store_products : List StoreProduct
  pub audits : List SetupAudit
  pub next_id : ℕ

abbrev pub is_product : ℕ → Product → Bool
is_product id p = p.id == id

-- `_offering`
abbrev pub is_offering : ℕ → ℕ → StoreProduct → Bool
is_offering store product o = o.store_id == store && o.product_id == product

unfoldable pub offering : Catalog → ℕ → ℕ → Option StoreProduct
offering cat store product = find (is_offering store product) cat.store_products

-- `on_customer_menu`
abbrev pub is_available_offering : Option StoreProduct → Bool
is_available_offering none = false
is_available_offering (some o) = o.is_available

unfoldable pub on_customer_menu : Product → Option StoreProduct → Bool
on_customer_menu product offering = is_available_offering offering && product.is_active

-- The join of list_menu_products, and its filter.
unfoldable pub join_products : List Product → ℕ → List StoreProduct → List (StoreProduct × Product)
join_products products store [] = []
join_products products store (o ∷ os) =
    let rest = join_products products store os in
    elim (find (is_product o.product_id) products) [
      | none ↦ rest
      | some p ↦
          if o.store_id == store && o.is_available && p.is_active then (o, p) ∷ rest else rest
    ]

abbrev pub products_of : List (StoreProduct × Product) → List Product
products_of [] = []
products_of ((_, p) ∷ rows) = p ∷ products_of rows

module _ (name_before : Text → Text → Bool) where
  -- ORDER BY sort_order, name, id
  abbrev pub is_before : StoreProduct × Product → StoreProduct × Product → Bool
  is_before (o, p) (o', p') =
      ltb o.sort_order o'.sort_order
      || (o.sort_order == o'.sort_order
          && (name_before p.name p'.name || (text_eq p.name p'.name && ltb p.id p'.id)))

  unfoldable pub insert_row :
      StoreProduct × Product → List (StoreProduct × Product) → List (StoreProduct × Product)
  insert_row row [] = row ∷ []
  insert_row row (r ∷ rows) =
      let rest = insert_row row rows in if is_before r row then r ∷ rest else row ∷ r ∷ rows

  unfoldable pub order_rows : List (StoreProduct × Product) → List (StoreProduct × Product)
  order_rows [] = []
  order_rows (row ∷ rows) = insert_row row (order_rows rows)

  -- `list_menu_products`
  unfoldable pub list_menu_products : Catalog → ℕ → List Product
  list_menu_products cat store =
      products_of (order_rows (join_products cat.products store cat.store_products))
