-- ===== src/Inventory/Lifecycle/Body.antt =====
-- One step of the loops of consume_order and release_order_reservation: what their bodies have in
-- common, and what a step does to the shelves.
use sweetops.Base.{
  ℕ, ◌≡◌, refl, true, false, Option, none, some, List, [], ◌∷◌, arith, if◌then◌else◌, ◌≢◌,
}
use sweetops.Int.{ℤ, pos, ◌+ℤ◌, ◌-ℤ◌, ◌≤ℤ◌, ◌<ℤ◌, ◌≈ℤ◌, int_laws}
use sweetops.Inventory.Model.{IngredientStock, OrderInventoryLine, Inventory, set_stock}
use sweetops.Inventory.Books.{
  on_hand_of, reserved_of, promised, rows-set_stock, at_shelf, All, IsSound, RowsSound, LineSound,
  Explained,
}
use sweetops.Inventory.Lifecycle.{outstanding_reservation, is_pending, Settled}

-- What the loop needs of its body: it writes one row, explained by the ledger, takes the line's
-- outstanding quantity off the promise, and leaves nothing of the line outstanding.
pub record IsBody (on_line : OrderInventoryLine → OrderInventoryLine)
    (on_stock : OrderInventoryLine → IngredientStock → Inventory → Inventory) : Type 0 where
  pub on_row : OrderInventoryLine → IngredientStock → IngredientStock
  pub stock_written :
      (l : OrderInventoryLine) (row : IngredientStock) (inv : Inventory)
      → (on_stock l row inv).stock ≡ set_stock l.store_id l.ingredient_id (on_row l row) inv.stock
  pub explained :
      (l : OrderInventoryLine) (row : IngredientStock) (inv : Inventory)
      → inv.stock l.store_id l.ingredient_id ≡ some row
      → Explained inv (on_stock l row inv)
  pub row_sound :
      (l : OrderInventoryLine) (row : IngredientStock)
      → pos 0 <ℤ outstanding_reservation l
      → outstanding_reservation l ≤ℤ row.reserved_quantity
      → IsSound row
      → IsSound (on_row l row)
  pub promise_taken :
      (l : OrderInventoryLine) (row : IngredientStock)
      → (on_row l row).reserved_quantity ≈ℤ row.reserved_quantity -ℤ outstanding_reservation l
  pub goods : OrderInventoryLine → ℤ
  pub goods_taken :
      (l : OrderInventoryLine) (row : IngredientStock)
      → (on_row l row).on_hand_quantity ≈ℤ row.on_hand_quantity -ℤ goods l
  pub same_store : (l : OrderInventoryLine) → (on_line l).store_id ≡ l.store_id
  pub same_ingredient : (l : OrderInventoryLine) → (on_line l).ingredient_id ≡ l.ingredient_id
  pub line_sound :
      (l : OrderInventoryLine)
      → pos 0 <ℤ outstanding_reservation l
      → LineSound l
      → LineSound (on_line l)
  pub line_settled : (l : OrderInventoryLine) → outstanding_reservation (on_line l) ≈ℤ pos 0

-- The sum of `f` over the pending lines of an order, for one shelf.
abbrev pub order_share : (OrderInventoryLine → ℤ) → ℕ → ℕ → List OrderInventoryLine → ℕ → ℕ → ℤ
order_share f store order [] s i = pos 0
order_share f store order (l ∷ ls) s i =
    (if is_pending store order l then at_shelf s i l.store_id l.ingredient_id (f l) else pos 0)
    +ℤ order_share f store order ls s i

-- What a pass over `lines` from the tables `inv` has done.
pub record Settles (goods : OrderInventoryLine → ℤ) (store order : ℕ)
    (lines : List OrderInventoryLine) (inv : Inventory) (r : Settled) : Type 0 where
  pub explained : Explained inv r.inv
  pub rows : RowsSound r.inv
  pub lines_sound : All LineSound r.lines
  pub promise :
      (s i : ℕ)
      → reserved_of r.inv s i +ℤ promised lines s i ≈ℤ reserved_of inv s i +ℤ promised r.lines s i
  pub reserved_taken :
      (s i : ℕ)
      → reserved_of r.inv s i +ℤ order_share outstanding_reservation store order lines s i
        ≈ℤ reserved_of inv s i
  pub on_hand_taken :
      (s i : ℕ)
      → on_hand_of r.inv s i +ℤ order_share goods store order lines s i ≈ℤ on_hand_of inv s i
  pub elsewhere : (s i : ℕ) → s ≢ store → r.inv.stock s i ≡ inv.stock s i
  pub settled : All (λ l. is_pending store order l ≡ false) r.lines

abbrev pub IsCovered : List OrderInventoryLine → Inventory → Type 0
IsCovered lines inv = (s i : ℕ) → promised lines s i ≤ℤ reserved_of inv s i

-- A sound line holds no negative quantity.
pub outstanding_nonneg : (l : OrderInventoryLine) → LineSound l → pos 0 ≤ℤ outstanding_reservation l
outstanding_nonneg l h = omega (int_laws, h.within_reserved)

pub at_shelf_nonneg : (s i t j : ℕ) (q : ℤ) → pos 0 ≤ℤ q → pos 0 ≤ℤ at_shelf s i t j q
at_shelf_nonneg s i t j q h = ground arith

pub promised_nonneg :
    (s i : ℕ) (ls : List OrderInventoryLine) → All LineSound ls → pos 0 ≤ℤ promised ls s i
promised_nonneg s i [] h = omega arith
promised_nonneg s i (l ∷ ls) h = omega (
  int_laws,
  at_shelf_nonneg s i l.store_id l.ingredient_id _ (outstanding_nonneg l h.0),
  promised_nonneg s i ls h.1,
)

pub is_pending_facts :
    (store order : ℕ) (l : OrderInventoryLine)
    → is_pending store order l ≡ true
    → (l.store_id ≡ store) × (l.order_id ≡ order) × (pos 0 <ℤ outstanding_reservation l)
unfolding is_pending
is_pending_facts store order l h = ground arith

at_shelf_self : (s i : ℕ) (q : ℤ) → at_shelf s i s i q ≡ q
at_shelf_self s i q = ground arith

-- A covered line has a stock row, which holds at least what the line promises.
pub row_of_pending :
    (l : OrderInventoryLine) (ls : List OrderInventoryLine) (inv : Inventory)
    → IsCovered (l ∷ ls) inv
    → All LineSound ls
    → pos 0 <ℤ outstanding_reservation l
    → (row : IngredientStock) × (inv.stock l.store_id l.ingredient_id ≡ some row)
      × (outstanding_reservation l ≤ℤ row.reserved_quantity)
row_of_pending l ls inv covered sound p =
    go (inv.stock s i) refl (rw (at_shelf_self s i q) at (covered s i))
  where
    s : ℕ
    s = l.store_id

    i : ℕ
    i = l.ingredient_id

    q : ℤ
    q = outstanding_reservation l

    go :
        (o : Option IngredientStock)
        → inv.stock s i ≡ o
        → q +ℤ promised ls s i ≤ℤ reserved_of inv s i
        → (row : IngredientStock) × (inv.stock s i ≡ some row) × (q ≤ℤ row.reserved_quantity)
    go none e h = absurd (grind (int_laws, promised_nonneg s i ls sound, e))
    go (some row) e h = (row, e, grind (int_laws, promised_nonneg s i ls sound, e))

at_shelf_zero : (s i t j : ℕ) (q : ℤ) → q ≈ℤ pos 0 → at_shelf s i t j q ≈ℤ pos 0
at_shelf_zero s i t j q h = ground arith

-- Taking `q` off one row takes it off that shelf.
reserved-set_stock :
    (t j s i : ℕ) (q : ℤ) (row row' : IngredientStock) (inv : Inventory)
    → inv.stock t j ≡ some row
    → row'.reserved_quantity ≈ℤ row.reserved_quantity -ℤ q
    → reserved_of (record inv { stock = set_stock t j row' inv.stock }) s i +ℤ at_shelf s i t j q
      ≈ℤ reserved_of inv s i
reserved-set_stock t j s i q row row' inv e h = grind int_laws

on_hand-set_stock :
    (t j s i : ℕ) (q : ℤ) (row row' : IngredientStock) (inv : Inventory)
    → inv.stock t j ≡ some row
    → row'.on_hand_quantity ≈ℤ row.on_hand_quantity -ℤ q
    → on_hand_of (record inv { stock = set_stock t j row' inv.stock }) s i +ℤ at_shelf s i t j q
      ≈ℤ on_hand_of inv s i
on_hand-set_stock t j s i q row row' inv e h = grind int_laws

module _ {on_line : OrderInventoryLine → OrderInventoryLine}
    {on_stock : OrderInventoryLine → IngredientStock → Inventory → Inventory}
    (body : IsBody on_line on_stock) (l : OrderInventoryLine) (row : IngredientStock)
    (inv : Inventory) (here : inv.stock l.store_id l.ingredient_id ≡ some row) where
  pub reserved_of-step :
      (s i : ℕ)
      → reserved_of (on_stock l row inv) s i
          +ℤ at_shelf s i l.store_id l.ingredient_id (outstanding_reservation l)
        ≈ℤ reserved_of inv s i
  reserved_of-step s i = rw (body.stock_written l row inv) (
      reserved-set_stock l.store_id l.ingredient_id s i _ row (body.on_row l row) inv here
        (body.promise_taken l row))

  pub on_hand_of-step :
      (s i : ℕ)
      → on_hand_of (on_stock l row inv) s i
          +ℤ at_shelf s i l.store_id l.ingredient_id (body.goods l)
        ≈ℤ on_hand_of inv s i
  on_hand_of-step s i = rw (body.stock_written l row inv) (
      on_hand-set_stock l.store_id l.ingredient_id s i _ row (body.on_row l row) inv here
        (body.goods_taken l row))

  pub elsewhere-step : (s i : ℕ) → s ≢ l.store_id → (on_stock l row inv).stock s i ≡ inv.stock s i
  elsewhere-step s i other = rw (body.stock_written l row inv) (ground arith)

  pub rows-step :
      pos 0 <ℤ outstanding_reservation l
      → outstanding_reservation l ≤ℤ row.reserved_quantity
      → RowsSound inv
      → RowsSound (on_stock l row inv)
  rows-step p c sound s i r e =
      rows-set_stock l.store_id l.ingredient_id (body.on_row l row) inv
        (body.row_sound l row p c (sound _ _ row here)) sound s i r
        (rw (body.stock_written l row inv) at e)

  pub promised-step :
      (ls : List OrderInventoryLine) (s i : ℕ) → promised (on_line l ∷ ls) s i ≈ℤ promised ls s i
  promised-step ls s i = omega (
    int_laws,
    at_shelf_zero s i (on_line l).store_id (on_line l).ingredient_id _ (body.line_settled l),
  )

  pub IsCovered-step :
      (ls : List OrderInventoryLine) → IsCovered (l ∷ ls) inv → IsCovered ls (on_stock l row inv)
  IsCovered-step ls c s i = omega (int_laws, c s i, reserved_of-step s i)
