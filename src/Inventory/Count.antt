-- ===== src/Inventory/Count.antt =====
-- The physical stock count of apps/api/app/services/inventory_service.py: record_stock_count and
-- its helpers.
pub mod Effect
pub mod Frame
pub mod Outcome
use sweetops.Base.{
  ℕ, suc, Bool, true, false, ◌&&◌, Option, none, some, [], ◌∷◌, ◌==◌, if◌then◌else◌, find, Result,
  ok, err, http, raise_if, idempotency_mismatch, stock_count_below_reserved, ◌>>=◌, ◌>>◌,
}
use sweetops.Int.{ℤ, pos, ◌-ℤ◌, abs, ltb_ℤ, eqb_ℤ}
use sweetops.Text.{Text, text_eq}
use sweetops.Quantity.{Decimal}
use sweetops.Digest.{codes, text, number, str_amount, canonical}
use sweetops.Inventory.Model.{
  Ingredient, IngredientStock, Movement, stock_count_adjustment, InventoryStockCount, Inventory,
  inventory_stock_counted, set_stock, movement, add_movement, audit,
}
use sweetops.Inventory.Commands.{
  Race, require_key, optional_text, require_reason, require_non_negative, load_stock_for_update,
}

-- `StockCountResult`
pub record StockCountResult : Type 0 where
  pub stock_count : InventoryStockCount
  pub movement : Option Movement
  pub replayed : Bool

pub record CountCommand : Type 0 where
  pub store_id : ℕ
  pub ingredient_id : ℕ
  pub counted : ℤ
  pub reason : Text
  pub note : Option Text
  pub actor_user_id : ℕ
  pub key_hash : Text
  pub request_hash : Text

-- `_find_stock_count_by_key`
abbrev has_count_key : ℕ → Text → InventoryStockCount → Bool
has_count_key store key c = c.store_id == store && text_eq c.idempotency_key_hash key

unfoldable pub find_stock_count_by_key : Inventory → ℕ → Text → Option InventoryStockCount
find_stock_count_by_key inv store key = find (has_count_key store key) inv.stock_counts

-- `_stock_count_movement`
abbrev is_of_count : ℕ → Movement → Bool
is_of_count count m = elim m.stock_count_id [ none ↦ false | some c ↦ c == count ]

unfoldable pub stock_count_movement : Inventory → ℕ → Option Movement
stock_count_movement inv count = find (is_of_count count) inv.movements

-- `_replay_stock_count`
unfoldable pub replay_stock_count :
    Inventory → InventoryStockCount → Text → Result (StockCountResult × Inventory)
replay_stock_count inv existing request_hash =
    if text_eq existing.request_hash request_hash
    then ok (
      record {
        stock_count = existing;
        movement = stock_count_movement inv existing.id;
        replayed = true;
      },
      inv,
    )
    else err (http 409 idempotency_mismatch)

abbrev pub count_row : CountCommand → Text → IngredientStock → ℕ → InventoryStockCount
count_row cmd unit stock id = record {
  id = id;
  store_id = cmd.store_id;
  ingredient_id = cmd.ingredient_id;
  counted_quantity = cmd.counted;
  system_on_hand_quantity = stock.on_hand_quantity;
  system_reserved_quantity = stock.reserved_quantity;
  unit = unit;
  reason = cmd.reason;
  note = cmd.note;
  counted_by_user_id = cmd.actor_user_id;
  idempotency_key_hash = cmd.key_hash;
  request_hash = cmd.request_hash;
}

abbrev pub count_movement : CountCommand → Text → ℤ → ℕ → Movement
count_movement cmd unit delta count =
    record (movement cmd.store_id cmd.ingredient_id stock_count_adjustment (abs delta) delta (pos 0)
      unit) {
        reason = some cmd.reason;
        actor_user_id = some cmd.actor_user_id;
        stock_count_id = some count;
      }

-- `if delta != ZERO`: the ledger row, and the shelf set to what was counted.
unfoldable pub correct_shelf :
    CountCommand → Text → IngredientStock → ℕ → Inventory → Option Movement × Inventory
correct_shelf cmd unit stock count inv =
    let delta = cmd.counted -ℤ stock.on_hand_quantity in
    if eqb_ℤ delta (pos 0) then (none, inv) else (
      some (record (count_movement cmd unit delta count) { id = inv.next_id }),
      add_movement (count_movement cmd unit delta count) (record inv {
        stock =
            set_stock cmd.store_id cmd.ingredient_id
              (record stock { on_hand_quantity = cmd.counted }) inv.stock;
      }),
    )

-- The insert and the commit; a second count with the key is an IntegrityError, resolved to the
-- first.
unfoldable pub insert_count :
    CountCommand → Text → IngredientStock → Inventory → Result (StockCountResult × Inventory)
insert_count cmd unit stock inv = elim (find_stock_count_by_key inv cmd.store_id cmd.key_hash) [
  | some winner ↦ replay_stock_count inv winner cmd.request_hash
  | none ↦
      let count = count_row cmd unit stock inv.next_id in
      let corrected =
        correct_shelf cmd unit stock inv.next_id
          (record inv { stock_counts = count ∷ inv.stock_counts; next_id = suc inv.next_id }) in
      ok (
        record { stock_count = count; movement = corrected.0; replayed = false },
        audit inventory_stock_counted inv.next_id (some cmd.actor_user_id) corrected.1,
      )
]

-- Under the lock: the re-check, the guard, the insert.
unfoldable pub count_under_lock :
    Race
    → CountCommand
    → Inventory
    → Ingredient × IngredientStock
    → Result (StockCountResult × Inventory)
count_under_lock race cmd locked (ingredient, stock) =
    elim (find_stock_count_by_key locked cmd.store_id cmd.key_hash) [
      | some existing ↦ replay_stock_count locked existing cmd.request_hash
      | none ↦ do
        raise_if (ltb_ℤ cmd.counted stock.reserved_quantity) 409 stock_count_below_reserved
        insert_count cmd ingredient.unit stock (race.before_insert locked)
    ]

unfoldable pub run_count : Race → CountCommand → Inventory → Result (StockCountResult × Inventory)
run_count race cmd inv = elim (find_stock_count_by_key inv cmd.store_id cmd.key_hash) [
  | some existing ↦ replay_stock_count inv existing cmd.request_hash
  | none ↦ do
    loaded ← load_stock_for_update (race.before_lock inv) cmd.store_id cmd.ingredient_id
    count_under_lock race cmd (race.before_lock inv) loaded
]

-- A request body, with what the session and the headers say.
pub record CountRequest : Type 0 where
  pub store_id : ℕ
  pub ingredient_id : ℕ
  pub counted_quantity : Decimal
  pub reason : Option Text
  pub note : Option Text
  pub actor_user_id : ℕ
  pub idempotency_key : Option Text

abbrev or_empty : Option Text → Text
or_empty none = []
or_empty (some s) = s

-- `record_stock_count`; `sha256` is hashlib's.
unfoldable pub record_stock_count :
    (Text → Text) → Race → CountRequest → Inventory → Result (StockCountResult × Inventory)
record_stock_count sha256 race req inv = do
  key ← require_key req.idempotency_key
  counted ← require_non_negative req.counted_quantity
  why ← require_reason req.reason
  let memo = optional_text req.note
  run_count race
      (record {
        store_id = req.store_id;
        ingredient_id = req.ingredient_id;
        counted = counted;
        reason = why;
        note = memo;
        actor_user_id = req.actor_user_id;
        key_hash = sha256 key;
        request_hash = sha256 (
            canonical (
              (codes "cmd", text (codes "stock_count"))
              ∷ (codes "ingredient_id", number req.ingredient_id)
              ∷ (codes "counted_quantity", text (str_amount 3 counted))
              ∷ (codes "reason", text why)
              ∷ (codes "note", text (or_empty memo))
              ∷ []));
      })
      inv
