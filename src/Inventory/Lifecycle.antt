-- ===== src/Inventory/Lifecycle.antt =====
-- The order lifecycle of apps/api/app/services/inventory_service.py: available and outstanding
-- quantities, row locks, check_availability, reserve_for_order, consume_order and
-- release_order_reservation. Logging and `ip_address` are left out.
pub mod Reserve
pub mod Reservations
mod Body
mod Settle
pub mod Orders
use sweetops.Base.{
  ℕ, suc, ◌+◌, ◌≤◌, Bool, true, false, ◌&&◌, ◌||◌, Option, none, some, List, [], ◌∷◌, ltb, ◌==◌,
  if◌then◌else◌, Result, ok, err, http, stock_row_missing, internal_error, ◌>>=◌,
}
use sweetops.Int.{ℤ, pos, ◌+ℤ◌, ◌-ℤ◌, neg, ltb_ℤ, leb_ℤ}
use sweetops.Text.{Text}
use sweetops.Inventory.Model.{
  Ingredient, IngredientStock, OrderInventoryLine, Movement, Inventory, MovementType, AuditAction,
  reservation_created, reservation_released, consumption, inventory_reserved, inventory_consumed,
  inventory_reservation_released, set_stock, movement, add_movement, audit,
}

-- `available(stock)`
abbrev pub available : IngredientStock → ℤ
available stock = stock.on_hand_quantity -ℤ stock.reserved_quantity

-- `outstanding_reservation(line)`
abbrev pub outstanding_reservation : OrderInventoryLine → ℤ
outstanding_reservation line =
    line.reserved_quantity -ℤ line.consumed_quantity -ℤ line.released_quantity

unfoldable pub insert_id : ℕ → List ℕ → List ℕ
insert_id i [] = i ∷ []
insert_id i (j ∷ js) = if i == j then j ∷ js else if ltb i j then i ∷ j ∷ js else j ∷ insert_id i js

-- `sorted({int(i) for i in ingredient_ids})`: the order in which the rows are locked.
unfoldable pub lock_order : List ℕ → List ℕ
unfolding insert_id
lock_order [] = []
lock_order (i ∷ is) = insert_id i (lock_order is)

-- `dict[int, Decimal]`, in insertion order; `d[k] = d.get(k, ZERO) + qty`.
abbrev pub Totals : Type 0
Totals = List (ℕ × ℤ)

unfoldable pub add_to : ℕ → ℤ → Totals → Totals
add_to k qty [] = (k, qty) ∷ []
add_to k qty ((j, v) ∷ d) = if k == j then (j, v +ℤ qty) ∷ d else (j, v) ∷ add_to k qty d

-- `check_availability`: the ingredients whose AVAILABLE quantity is short, in order. `rows` is
-- what lock_stock_rows gave, and a missing row is a shortage.
unfoldable pub is_short : Option IngredientStock → ℤ → Bool
is_short none needed = true
is_short (some stock) needed = ltb_ℤ (available stock) needed

unfoldable pub check_availability : (ℕ → Option IngredientStock) → Totals → List ℕ
unfolding is_short
check_availability rows [] = []
check_availability rows ((ingredient, needed) ∷ required) =
    let short = check_availability rows required in
    if is_short (rows ingredient) needed then ingredient ∷ short else short

-- One entry of `line_requirements`.
pub record Requirement : Type 0 where
  pub order_item_id : ℕ
  pub ingredient_id : ℕ
  pub quantity : ℤ

-- `db.add(line)`, at its place in the order of `_lock_order_lines`: the id is new, so it goes
-- behind the lines of its ingredient.
unfoldable pub insert_line : OrderInventoryLine → List OrderInventoryLine → List OrderInventoryLine
insert_line l [] = l ∷ []
insert_line l (m ∷ ms) =
    if ltb l.ingredient_id m.ingredient_id then l ∷ m ∷ ms else m ∷ insert_line l ms

-- The line and the ledger row of one requirement.
unfoldable pub reserve_line : ℕ → ℕ → Text → Requirement → Inventory → Inventory
unfolding insert_line
reserve_line store order unit req inv =
    add_movement
      (record (movement store req.ingredient_id reservation_created req.quantity (pos 0)
        req.quantity unit) {
          order_id = some order;
          order_item_id = some req.order_item_id;
          order_inventory_line_id = some inv.next_id;
        })
      (record inv {
        lines =
            insert_line
              (record {
                id = inv.next_id;
                store_id = store;
                order_id = order;
                order_item_id = req.order_item_id;
                ingredient_id = req.ingredient_id;
                reserved_quantity = req.quantity;
                consumed_quantity = pos 0;
                released_quantity = pos 0;
                unit = unit;
              })
              inv.lines;
        next_id = suc inv.next_id;
      })

-- The first loop of `reserve_for_order`; `units` is `ingredients_by_id[i].unit`.
unfoldable pub reserve_lines :
    ℕ → ℕ → (ℕ → Text) → List Requirement → Totals → Inventory → Inventory × Totals
unfolding reserve_line add_to
reserve_lines store order units [] acc inv = (inv, acc)
reserve_lines store order units (req ∷ reqs) acc inv =
    let skipped = reserve_lines store order units reqs acc inv in
    let reserved =
      reserve_lines store order units reqs (add_to req.ingredient_id req.quantity acc)
        (reserve_line store order (units req.ingredient_id) req inv) in
    if leb_ℤ req.quantity (pos 0) then skipped else reserved

-- The second loop: `stock.reserved_quantity += qty`, one row for each ingredient. `stock_rows[i]`
-- of a missing row is a KeyError, which nothing catches.
unfoldable pub raise_reserved : ℕ → Totals → Inventory → Result Inventory
raise_reserved store [] inv = ok inv
raise_reserved store ((ingredient, qty) ∷ totals) inv = elim (inv.stock store ingredient) [
  | none ↦ err (http 500 internal_error)
  | some row ↦ raise_reserved store totals (record inv {
    stock =
        set_stock store ingredient (record row { reserved_quantity = row.reserved_quantity +ℤ qty })
          inv.stock;
  })
]

unfoldable pub audit_reserved : ℕ → Totals → Inventory → Inventory
audit_reserved order [] inv = inv
audit_reserved order (_ ∷ _) inv = audit inventory_reserved order none inv

-- `reserve_for_order(db, order, line_requirements, ...)`, for order `order` of store `store`.
unfoldable pub reserve_for_order :
    ℕ → ℕ → (ℕ → Text) → List Requirement → Inventory → Result Inventory
unfolding reserve_lines raise_reserved audit_reserved
reserve_for_order store order units reqs inv =
    let (written, totals) = reserve_lines store order units reqs [] inv in
    do raised ← raise_reserved store totals written; ok (audit_reserved order totals raised)

-- The filter of `_lock_order_lines` and of `pending`: a line of this store's order of which some
-- is neither consumed nor released.
unfoldable pub is_pending : ℕ → ℕ → OrderInventoryLine → Bool
is_pending store order line =
    line.store_id == store && line.order_id == order && ltb_ℤ (pos 0) (outstanding_reservation line)

-- What one pass over the lines leaves: the lines, the other tables, and the returned dict.
pub record Settled : Type 0 where
  pub lines : List OrderInventoryLine
  pub inv : Inventory
  pub totals : Totals

-- The body of the loop of `consume_order`, on the line and on the tables.
unfoldable pub consume_line : OrderInventoryLine → OrderInventoryLine
consume_line line = record line {
  consumed_quantity = line.consumed_quantity +ℤ outstanding_reservation line;
}

-- The ledger row of a line's outstanding quantity, in the loops of both functions.
abbrev pub line_movement : MovementType → ℤ → Option ℕ → OrderInventoryLine → Movement
line_movement kind on_hand actor line =
    let qty = outstanding_reservation line in
    record (movement line.store_id line.ingredient_id kind qty on_hand (neg qty) line.unit) {
      order_id = some line.order_id;
      order_item_id = some line.order_item_id;
      order_inventory_line_id = some line.id;
      actor_user_id = actor;
    }

unfoldable pub consume_stock :
    Option ℕ → OrderInventoryLine → IngredientStock → Inventory → Inventory
consume_stock actor line row inv =
    let qty = outstanding_reservation line in
    add_movement (line_movement consumption (neg qty) actor line) (record inv {
      stock =
          set_stock line.store_id line.ingredient_id
            (record row {
              on_hand_quantity = row.on_hand_quantity -ℤ qty;
              reserved_quantity = row.reserved_quantity -ℤ qty;
            })
            inv.stock;
    })

-- The body of the loop of `release_order_reservation`.
unfoldable pub release_line : OrderInventoryLine → OrderInventoryLine
release_line line = record line {
  released_quantity = line.released_quantity +ℤ outstanding_reservation line;
}

unfoldable pub release_stock :
    Option ℕ → OrderInventoryLine → IngredientStock → Inventory → Inventory
release_stock actor line row inv =
    let qty = outstanding_reservation line in
    add_movement (line_movement reservation_released (pos 0) actor line) (record inv {
      stock =
          set_stock line.store_id line.ingredient_id
            (record row { reserved_quantity = row.reserved_quantity -ℤ qty }) inv.stock;
    })

-- The loops of the two functions, which differ in their bodies alone: `on_line` and `on_stock`.
-- They walk the table and leave what is not pending. A stock row that is not there is a 409.
module _ (on_line : OrderInventoryLine → OrderInventoryLine)
    (on_stock : OrderInventoryLine → IngredientStock → Inventory → Inventory)
    (store order : ℕ) where
  unfoldable pub settle_lines : List OrderInventoryLine → Totals → Inventory → Result Settled
  settle_lines [] acc inv = ok (record { lines = []; inv = inv; totals = acc })
  settle_lines (line ∷ lines) acc inv = elim (is_pending store order line) [
    | false ↦ do r ← settle_lines lines acc inv; ok (record r { lines = line ∷ r.lines })
    | true ↦ elim (inv.stock store line.ingredient_id) [
      | none ↦ err (http 409 stock_row_missing)
      | some row ↦ do
        r ←
            settle_lines lines (add_to line.ingredient_id (outstanding_reservation line) acc)
              (on_stock line row inv)
        ok (record r { lines = on_line line ∷ r.lines })
    ]
  ]

-- `if not pending: return {}`, else the audit row.
finish_with : AuditAction → Option ℕ → ℕ → Inventory → Inventory → Totals → Totals × Inventory
finish_with action actor order before after [] = ([], before)
finish_with action actor order before after (e ∷ totals) =
    (e ∷ totals, audit action order actor after)

finish : AuditAction → Option ℕ → ℕ → Inventory → Settled → Totals × Inventory
unfolding finish_with
finish action actor order before r =
    finish_with action actor order before (record r.inv { lines = r.lines }) r.totals

-- `consume_order(db, order, actor_user_id=actor)`, for order `order` of store `store`.
unfoldable pub consume_order : Option ℕ → ℕ → ℕ → Inventory → Result (Totals × Inventory)
unfolding settle_lines finish
consume_order actor store order inv = do
  r ← settle_lines consume_line (consume_stock actor) store order inv.lines [] inv
  ok (finish inventory_consumed actor order inv r)

-- `release_order_reservation(db, order, actor_user_id=actor)`.
unfoldable pub release_order_reservation :
    Option ℕ → ℕ → ℕ → Inventory → Result (Totals × Inventory)
unfolding settle_lines finish
release_order_reservation actor store order inv = do
  r ← settle_lines release_line (release_stock actor) store order inv.lines [] inv
  ok (finish inventory_reservation_released actor order inv r)
