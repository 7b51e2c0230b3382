-- ===== src/Inventory/Threshold.antt =====
-- The threshold alerts of apps/api/app/services/inventory_service.py: threshold_status,
-- recommended_restock_quantity, _validate_thresholds and update_thresholds.
pub mod Ladder
use sweetops.Base.{
  ℕ, suc, Bool, true, false, ◌&&◌, Option, none, some, List, [], ◌∷◌, ◌==◌, if◌then◌else◌, find,
  Result, ok, err, http, raise_if, idempotency_mismatch, stock_not_configured, threshold_negative,
  threshold_critical_above_minimum, threshold_minimum_above_target, threshold_critical_above_target,
  ◌>>=◌, ◌>>◌,
}
use sweetops.Int.{ℤ, pos, ◌-ℤ◌, ltb_ℤ, leb_ℤ}
use sweetops.Text.{Text, text_eq}
use sweetops.Quantity.{Decimal, q3}
use sweetops.Digest.{codes, Json, text, number, str_amount, canonical}
use sweetops.Inventory.Model.{
  Ingredient, IngredientStock, InventoryThresholdUpdate, Inventory, inventory_thresholds_updated,
  set_stock, audit,
}
use sweetops.Inventory.Lifecycle.{available}
use sweetops.Inventory.Commands.{Race, require_key, require_reason, load_stock_for_update}

pub data Status : Type 0 where
  below_reserved out_of_stock critical low healthy not_configured : Status

abbrev pub at_most : ℤ → Option ℤ → Bool
at_most avail none = false
at_most avail (some level) = leb_ℤ avail level

abbrev is_none : Option ℤ → Bool
is_none none = true
is_none (some _) = false

-- `threshold_status`; available_quantity is the generated column on_hand - reserved.
unfoldable pub threshold_status : IngredientStock → Status
threshold_status stock =
    let avail = available stock in
    if ltb_ℤ stock.on_hand_quantity stock.reserved_quantity
    then below_reserved
    else if leb_ℤ avail (pos 0)
    then out_of_stock
    else if is_none stock.critical_quantity && is_none stock.minimum_quantity
    then not_configured
    else if at_most avail stock.critical_quantity
    then critical
    else if at_most avail stock.minimum_quantity
    then low
    else healthy

-- `recommended_restock_quantity`
unfoldable pub recommended_restock_quantity : IngredientStock → Option ℤ
recommended_restock_quantity stock = elim stock.target_quantity [
  | none ↦ none
  | some target ↦ if leb_ℤ target (available stock) then none else some (target -ℤ available stock)
]

abbrev pub is_negative : Option ℤ → Bool
is_negative none = false
is_negative (some q) = ltb_ℤ q (pos 0)

abbrev pub is_above : Option ℤ → Option ℤ → Bool
is_above (some a) (some b) = ltb_ℤ b a
is_above _ _ = false

-- `_validate_thresholds`
unfoldable pub validate_thresholds : Option ℤ → Option ℤ → Option ℤ → Result (Unit {0})
validate_thresholds c m t = do
  raise_if (is_negative c) 422 threshold_negative
  raise_if (is_negative m) 422 threshold_negative
  raise_if (is_negative t) 422 threshold_negative
  raise_if (is_above c m) 422 threshold_critical_above_minimum
  raise_if (is_above m t) 422 threshold_minimum_above_target
  raise_if (is_above c t) 422 threshold_critical_above_target

-- `_opt_q3`
unfoldable pub opt_q3 : Option Decimal → Option ℤ
opt_q3 none = none
opt_q3 (some x) = some (q3 x)

-- `ThresholdResult`
pub record ThresholdResult : Type 0 where
  pub update : InventoryThresholdUpdate
  pub stock : IngredientStock
  pub replayed : Bool

pub record ThresholdCommand : Type 0 where
  pub store_id : ℕ
  pub ingredient_id : ℕ
  pub critical : Option ℤ
  pub minimum : Option ℤ
  pub target : Option ℤ
  pub reason : Text
  pub actor_user_id : ℕ
  pub key_hash : Text
  pub request_hash : Text
  pub now : ℕ

-- `_find_threshold_update_by_key`
abbrev has_update_key : ℕ → Text → InventoryThresholdUpdate → Bool
has_update_key store key u = u.store_id == store && text_eq u.idempotency_key_hash key

unfoldable pub find_threshold_update_by_key : Inventory → ℕ → Text → Option InventoryThresholdUpdate
find_threshold_update_by_key inv store key = find (has_update_key store key) inv.threshold_updates

-- `_replay_threshold_update`
unfoldable pub replay_threshold_update :
    Inventory
    → InventoryThresholdUpdate
    → Text
    → IngredientStock
    → Result (ThresholdResult × Inventory)
replay_threshold_update inv existing request_hash stock =
    if text_eq existing.request_hash request_hash
    then ok (record { update = existing; stock = stock; replayed = true }, inv)
    else err (http 409 idempotency_mismatch)

-- `_read_stock`
unfoldable pub read_stock : Inventory → ℕ → ℕ → Result IngredientStock
read_stock inv store ingredient = elim (inv.stock store ingredient) [
  | none ↦ err (http 404 stock_not_configured)
  | some stock ↦ ok stock
]

abbrev pub update_row : ThresholdCommand → IngredientStock → ℕ → InventoryThresholdUpdate
update_row cmd stock id = record {
  id = id;
  store_id = cmd.store_id;
  ingredient_id = cmd.ingredient_id;
  old_critical_quantity = stock.critical_quantity;
  old_minimum_quantity = stock.minimum_quantity;
  old_target_quantity = stock.target_quantity;
  new_critical_quantity = cmd.critical;
  new_minimum_quantity = cmd.minimum;
  new_target_quantity = cmd.target;
  reason = cmd.reason;
  updated_by_user_id = cmd.actor_user_id;
  idempotency_key_hash = cmd.key_hash;
  request_hash = cmd.request_hash;
}

abbrev pub reconfigured : ThresholdCommand → IngredientStock → IngredientStock
reconfigured cmd stock = record stock {
  critical_quantity = cmd.critical;
  minimum_quantity = cmd.minimum;
  target_quantity = cmd.target;
  threshold_updated_at = some cmd.now;
  threshold_updated_by_user_id = some cmd.actor_user_id;
}

unfoldable pub insert_update :
    ThresholdCommand → IngredientStock → Inventory → Result (ThresholdResult × Inventory)
insert_update cmd stock inv = elim (find_threshold_update_by_key inv cmd.store_id cmd.key_hash) [
  | some winner ↦ do
    current ← read_stock inv cmd.store_id cmd.ingredient_id
    replay_threshold_update inv winner cmd.request_hash current
  | none ↦ ok (
    record {
      update = update_row cmd stock inv.next_id;
      stock = reconfigured cmd stock;
      replayed = false;
    },
    audit inventory_thresholds_updated inv.next_id (some cmd.actor_user_id) (record inv {
      stock = set_stock cmd.store_id cmd.ingredient_id (reconfigured cmd stock) inv.stock;
      threshold_updates = update_row cmd stock inv.next_id ∷ inv.threshold_updates;
      next_id = suc inv.next_id;
    }),
  )
]

unfoldable pub update_under_lock :
    Race → ThresholdCommand → Inventory → IngredientStock → Result (ThresholdResult × Inventory)
update_under_lock race cmd locked stock =
    elim (find_threshold_update_by_key locked cmd.store_id cmd.key_hash) [
      | some existing ↦ replay_threshold_update locked existing cmd.request_hash stock
      | none ↦ insert_update cmd stock (race.before_insert locked)
    ]

unfoldable pub run_update :
    Race → ThresholdCommand → Inventory → Result (ThresholdResult × Inventory)
run_update race cmd inv = elim (find_threshold_update_by_key inv cmd.store_id cmd.key_hash) [
  | some existing ↦ do
    stock ← read_stock inv cmd.store_id cmd.ingredient_id
    replay_threshold_update inv existing cmd.request_hash stock
  | none ↦ do
    loaded ← load_stock_for_update (race.before_lock inv) cmd.store_id cmd.ingredient_id
    update_under_lock race cmd (race.before_lock inv) loaded.1
]

pub record ThresholdRequest : Type 0 where
  pub store_id : ℕ
  pub ingredient_id : ℕ
  pub critical_quantity : Option Decimal
  pub minimum_quantity : Option Decimal
  pub target_quantity : Option Decimal
  pub reason : Option Text
  pub actor_user_id : ℕ
  pub idempotency_key : Option Text
  pub now : ℕ

abbrev level_text : Option ℤ → Text
level_text none = []
level_text (some q) = str_amount 3 q

-- `update_thresholds`; `sha256` is hashlib's.
unfoldable pub update_thresholds :
    (Text → Text) → Race → ThresholdRequest → Inventory → Result (ThresholdResult × Inventory)
update_thresholds sha256 race req inv = do
  key ← require_key req.idempotency_key
  why ← require_reason req.reason
  let critical_level = opt_q3 req.critical_quantity
  let minimum_level = opt_q3 req.minimum_quantity
  let target_level = opt_q3 req.target_quantity
  validate_thresholds critical_level minimum_level target_level
  run_update race
      (record {
        store_id = req.store_id;
        ingredient_id = req.ingredient_id;
        critical = critical_level;
        minimum = minimum_level;
        target = target_level;
        reason = why;
        actor_user_id = req.actor_user_id;
        key_hash = sha256 key;
        request_hash = sha256 (
            canonical (
              (codes "cmd", text (codes "update_thresholds"))
              ∷ (codes "ingredient_id", number req.ingredient_id)
              ∷ (codes "critical_quantity", text (level_text critical_level))
              ∷ (codes "minimum_quantity", text (level_text minimum_level))
              ∷ (codes "target_quantity", text (level_text target_level))
              ∷ (codes "reason", text why)
              ∷ []));
        now = req.now;
      })
      inv
