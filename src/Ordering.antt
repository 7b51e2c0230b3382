-- ===== src/Ordering.antt =====
-- Order creation, of apps/api/app/services/order_service.py: create_order, calculate_consumed_quantity,
-- _resolve_menu_products and _derive_order_context. Amounts are in hundredths; standard quantities
-- are in thousandths of the ingredient's unit, as the stock is. Prices are not NULL. The audit row,
-- which is best effort, the broadcast to the kitchen and the response's display fields are left out.
pub mod Basket
pub mod Placing
pub mod Repeat
use sweetops.Base.{
  ℕ, suc, ◌+◌, ◌*◌, length, Bool, true, false, not, ◌&&◌, Option, none, some, List, [], ◌∷◌, ◌++◌,
  map, ◌==◌, if◌then◌else◌, Result, ok, err, http, raise_if, qr_required, qr_invalid,
  product_unavailable, no_ingredients, unknown_ingredients, out_of_stock, integrity_error, ◌>>=◌,
  ◌>>◌,
}
use sweetops.Int.{ℤ, pos, negsuc, ◌+ℤ◌, neg, eqb_ℤ}
use sweetops.Text.{Text, text_eq, is_empty}
use sweetops.Inventory.Model.{Ingredient, Inventory}
use sweetops.Inventory.Lifecycle.{
  Totals, add_to, Requirement, check_availability, reserve_for_order,
}
use sweetops.Payment.Model.{Order, new, unpaid, not_refunded, set_order}
use sweetops.Kitchen.{OrderStatusEvent}
use sweetops.Qr.{Tokens, ResolvedQrContext, resolve_token}

pub record OrderItemIngredientCreate : Type 0 where
  pub ingredient_id : ℕ
  pub quantity : ℕ

pub record OrderItemCreate : Type 0 where
  pub product_id : ℕ
  pub quantity : ℕ
  pub ingredients : List OrderItemIngredientCreate

-- `OrderCreateRequest`, with the Idempotency-Key header and the time of the request.
pub record OrderCreateRequest : Type 0 where
  pub qr_token : Option Text
  pub store_id : Option ℕ
  pub table_id : Option ℕ
  pub items : List OrderItemCreate
  pub idempotency_key : Option Text
  pub now : ℕ

pub record Product : Type 0 where
  pub base_price : ℤ
  pub is_active : Bool

pub record OrderItem : Type 0 where
  pub id : ℕ
  pub order_id : ℕ
  pub product_id : ℕ
  pub quantity : ℕ
  pub price : ℤ

pub record OrderItemIngredient : Type 0 where
  pub order_item_id : ℕ
  pub ingredient_id : ℕ
  pub quantity : ℕ
  pub price_modifier : ℤ
  pub consumed_quantity : ℤ
  pub consumed_unit : Text

-- The rows that order creation reads and writes. `store_products` gives `is_available` of a product
-- that the store offers; the unique constraint on `idempotency_key` makes `order_keys` a map.
pub record Shop : Type 0 where
  pub tokens : Tokens
  pub products : ℕ → Option Product
  pub store_products : ℕ → ℕ → Option Bool
  pub orders : ℕ → Option Order
  pub order_keys : Text → Option ℕ
  pub events : List OrderStatusEvent
  pub items : List OrderItem
  pub item_ingredients : List OrderItemIngredient
  pub inventory : Inventory
  pub next_id : ℕ

-- What other transactions commit while the order waits for the stock rows, and before its commit.
pub record Race : Type 0 where
  pub before_lock : Shop → Shop
  pub before_commit : Shop → Shop

-- n · x
abbrev pub times : ℕ → ℤ → ℤ
times n (pos m) = pos (n * m)
times n (negsuc m) = neg (pos (n * suc m))

-- `ing.standard_quantity or Decimal("1")`
abbrev pub standard_of : Ingredient → ℤ
standard_of ing = if eqb_ℤ ing.standard_quantity (pos 0) then pos 1000 else ing.standard_quantity

-- `calculate_consumed_quantity`
unfoldable pub calculate_consumed_quantity : ℤ → ℕ → ℕ → ℤ
calculate_consumed_quantity standard selected items = times items (times selected standard)

-- `_derive_order_context`; `allow_legacy` is settings.ALLOW_LEGACY_ORDER_CONTEXT.
abbrev given_token : Option Text → Option Text
given_token none = none
given_token (some token) = if is_empty token then none else some token

legacy_context : Bool → Option ℕ → Option ℕ → Result (ℕ × Option ℕ)
legacy_context true (some store) table = ok (store, table)
legacy_context true none table = err (http 400 qr_required)
legacy_context false store table = err (http 400 qr_required)

unfoldable pub derive_order_context :
    (Text → Text) → Bool → OrderCreateRequest → Shop → Result (ℕ × Option ℕ)
unfolding legacy_context
derive_order_context sha256 allow_legacy req shop = elim (given_token req.qr_token) [
  | none ↦ legacy_context allow_legacy req.store_id req.table_id
  | some token ↦ elim (resolve_token sha256 (some token) shop.tokens) [
    | none ↦ err (http 404 qr_invalid)
    | some ctx ↦ ok (ctx.store_id, some ctx.table_id)
  ]
]

-- A product of the catalog that is active and that the store offers today.
abbrev is_true : Option Bool → Bool
is_true none = false
is_true (some b) = b

abbrev is_active_product : Option Product → Bool
is_active_product none = false
is_active_product (some p) = p.is_active

unfoldable pub is_offered : Shop → ℕ → ℕ → Bool
is_offered shop store product =
    is_active_product (shop.products product) && is_true (shop.store_products store product)

-- `_resolve_menu_products`
unfoldable pub all_offered : Shop → ℕ → List OrderItemCreate → Bool
all_offered shop store [] = true
all_offered shop store (item ∷ items) =
    is_offered shop store item.product_id && all_offered shop store items

unfoldable pub resolve_menu_products : Shop → ℕ → List OrderItemCreate → Result (Unit {0})
unfolding all_offered
resolve_menu_products shop store items =
    raise_if (not (all_offered shop store items)) 422 product_unavailable

-- Every ingredient that is asked for, in order; it must exist and be active.
unfoldable pub ingredient_ids : List OrderItemCreate → List ℕ
ingredient_ids [] = []
ingredient_ids (item ∷ items) = map (λ i. i.ingredient_id) item.ingredients ++ ingredient_ids items

abbrev is_active_ingredient : Option Ingredient → Bool
is_active_ingredient none = false
is_active_ingredient (some ing) = ing.is_active

all_active : Inventory → List ℕ → Bool
all_active inv [] = true
all_active inv (i ∷ is) = is_active_ingredient (inv.ingredients i) && all_active inv is

abbrev is_nil : List ℕ → Bool
is_nil [] = true
is_nil (_ ∷ _) = false

unfoldable pub check_ingredients : Inventory → List ℕ → Result (Unit {0})
unfolding all_active
check_ingredients inv ids = do
  raise_if (is_nil ids) 422 no_ingredients
  raise_if (not (all_active inv ids)) 422 unknown_ingredients

-- What one ingredient of one item needs, and costs. A missing ingredient has been refused.
abbrev pub needed_of : Inventory → ℕ → OrderItemIngredientCreate → ℤ
needed_of inv item_quantity ing = elim (inv.ingredients ing.ingredient_id) [
  | none ↦ pos 0
  | some row ↦ calculate_consumed_quantity (standard_of row) ing.quantity item_quantity
]

abbrev price_of : Inventory → ℕ → ℤ
price_of inv i = elim (inv.ingredients i) [ none ↦ pos 0 | some row ↦ row.price ]

abbrev pub unit_of : Inventory → ℕ → Text
unit_of inv i = elim (inv.ingredients i) [ none ↦ [] | some row ↦ row.unit ]

-- Step 3, `required`: the totals by ingredient over the whole order.
unfoldable pub add_item : Inventory → ℕ → List OrderItemIngredientCreate → Totals → Totals
add_item inv item_quantity [] acc = acc
add_item inv item_quantity (ing ∷ ings) acc =
    add_item inv item_quantity ings (add_to ing.ingredient_id (needed_of inv item_quantity ing) acc)

unfoldable pub required_totals : Inventory → List OrderItemCreate → Totals → Totals
required_totals inv [] acc = acc
required_totals inv (item ∷ items) acc =
    required_totals inv items (add_item inv item.quantity item.ingredients acc)

-- Step 6, `line_requirements`: a dict for each item, since its key names the item.
abbrev pub requirement : ℕ → ℕ × ℤ → Requirement
requirement item (ingredient, qty) = record {
  order_item_id = item;
  ingredient_id = ingredient;
  quantity = qty;
}

unfoldable pub line_requirements : Inventory → ℕ → List OrderItemCreate → List Requirement
line_requirements inv id [] = []
line_requirements inv id (item ∷ items) =
    map (requirement id) (add_item inv item.quantity item.ingredients [])
    ++ line_requirements inv (suc id) items

-- Step 6, the price of an item and of the order.
ingredients_price : Inventory → ℕ → List OrderItemIngredientCreate → ℤ
ingredients_price inv item_quantity [] = pos 0
ingredients_price inv item_quantity (ing ∷ ings) =
    times item_quantity (times ing.quantity (price_of inv ing.ingredient_id))
    +ℤ ingredients_price inv item_quantity ings

abbrev base_price_of : Shop → ℕ → ℤ
base_price_of shop product = elim (shop.products product) [ none ↦ pos 0 | some p ↦ p.base_price ]

unfoldable pub item_total : Shop → OrderItemCreate → ℤ
unfolding ingredients_price
item_total shop item =
    times item.quantity (base_price_of shop item.product_id)
    +ℤ ingredients_price shop.inventory item.quantity item.ingredients

unfoldable pub total_amount : Shop → List OrderItemCreate → ℤ
total_amount shop [] = pos 0
total_amount shop (item ∷ items) = item_total shop item +ℤ total_amount shop items

-- The rows of an order: its items, and their ingredients.
unfoldable pub item_rows : Shop → ℕ → ℕ → List OrderItemCreate → List OrderItem
item_rows shop order id [] = []
item_rows shop order id (item ∷ items) =
    record {
      id = id;
      order_id = order;
      product_id = item.product_id;
      quantity = item.quantity;
      price = base_price_of shop item.product_id;
    }
    ∷ item_rows shop order (suc id) items

abbrev ingredient_row : Inventory → ℕ → ℕ → OrderItemIngredientCreate → OrderItemIngredient
ingredient_row inv item item_quantity ing = record {
  order_item_id = item;
  ingredient_id = ing.ingredient_id;
  quantity = ing.quantity;
  price_modifier = price_of inv ing.ingredient_id;
  consumed_quantity = needed_of inv item_quantity ing;
  consumed_unit = unit_of inv ing.ingredient_id;
}

unfoldable pub ingredient_rows : Inventory → ℕ → List OrderItemCreate → List OrderItemIngredient
ingredient_rows inv id [] = []
ingredient_rows inv id (item ∷ items) =
    map (ingredient_row inv id item.quantity) item.ingredients ++ ingredient_rows inv (suc id) items

abbrev pub new_order : ℕ → Option ℕ → ℤ → Order
new_order store table total = record {
  store_id = store;
  table_id = table;
  total_amount = total;
  status = new;
  payment_status = unpaid;
  refund_status = not_refunded;
  paid_amount = pos 0;
  refunded_amount = pos 0;
}

abbrev pub created_event : OrderCreateRequest → ℕ → OrderStatusEvent
created_event req order = record {
  order_id = order;
  status_from = none;
  status_to = new;
  actor_id = none;
  created_at = req.now;
}

abbrev pub set_key : Option Text → ℕ → (Text → Option ℕ) → Text → Option ℕ
set_key none id keys k = keys k
set_key (some key) id keys k = if text_eq key k then some id else keys k

-- The tables with the order's rows, and with the stock tables `inv`.
abbrev pub with_order : OrderCreateRequest → ℕ → Option ℕ → Shop → Inventory → Shop → Shop
with_order req store table seen inv shop =
    let order = shop.next_id in
    record shop {
      orders = set_order order (new_order store table (total_amount seen req.items)) shop.orders;
      order_keys = set_key req.idempotency_key order shop.order_keys;
      events = created_event req order ∷ shop.events;
      items = item_rows seen order (suc order) req.items ++ shop.items;
      item_ingredients =
          ingredient_rows seen.inventory (suc order) req.items ++ shop.item_ingredients;
      inventory = inv;
      next_id = suc order + length req.items;
    }

-- Steps 5 to 7, in the tables `shop`, with the catalog as it was read in `seen`.
unfoldable pub place_order : OrderCreateRequest → ℕ → Option ℕ → Shop → Shop → Result (ℕ × Shop)
place_order req store table seen shop = do
  inv ←
      reserve_for_order store shop.next_id (unit_of seen.inventory)
        (line_requirements seen.inventory (suc shop.next_id) req.items) shop.inventory
  ok (shop.next_id, with_order req store table seen inv shop)

abbrev pub key_owner : Option Text → Shop → Option ℕ
key_owner none shop = none
key_owner (some key) shop = shop.order_keys key

abbrev pub is_given : Option Text → Bool
is_given none = false
is_given (some key) = not (is_empty key)

-- The commit: an order with the key is an IntegrityError, which is resolved to that order if the
-- key is not empty.
unfoldable pub commit_order : OrderCreateRequest → ℕ → Option ℕ → Shop → Shop → Result (ℕ × Shop)
commit_order req store table seen shop = elim (key_owner req.idempotency_key shop) [
  | some winner ↦
      if is_given req.idempotency_key then ok (winner, shop) else err (http 500 integrity_error)
  | none ↦ place_order req store table seen shop
]

-- Steps 4 to 9, once the store's stock rows are locked.
unfoldable pub order_under_lock :
    Race → OrderCreateRequest → ℕ → Option ℕ → Shop → Shop → Result (ℕ × Shop)
order_under_lock race req store table seen locked =
    elim (check_availability (locked.inventory.stock store)
      (required_totals seen.inventory req.items [])) [
        | _ ∷ _ ↦ err (http 422 out_of_stock)
        | [] ↦ commit_order req store table seen (race.before_commit locked)
      ]

-- Steps 1b to 3.
unfoldable pub new_order_request :
    (Text → Text) → Bool → Race → OrderCreateRequest → Shop → Result (ℕ × Shop)
new_order_request sha256 allow_legacy race req shop = do
  context ← derive_order_context sha256 allow_legacy req shop
  resolve_menu_products shop context.0 req.items
  check_ingredients shop.inventory (ingredient_ids req.items)
  order_under_lock race req context.0 context.1 shop (race.before_lock shop)

abbrev pub fast_owner : Option Text → Shop → Option ℕ
fast_owner key shop = if is_given key then key_owner key shop else none

-- `create_order`: the id of the order that it answers with, and the tables that it leaves.
unfoldable pub create_order :
    (Text → Text) → Bool → Race → OrderCreateRequest → Shop → Result (ℕ × Shop)
create_order sha256 allow_legacy race req shop = elim (fast_owner req.idempotency_key shop) [
  | some existing ↦ ok (existing, shop)
  | none ↦ new_order_request sha256 allow_legacy race req shop
]
