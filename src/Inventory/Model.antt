-- ===== src/Inventory/Model.antt =====
-- The rows of apps/api/app/models that the inventory service reads and writes, and the state of one
-- database transaction. Quantities are whole numbers of thousandths (`QTY`, three places).
use sweetops.Base.{ℕ, suc, Bool, ◌&&◌, Option, none, some, List, ◌∷◌, ◌==◌, if◌then◌else◌}
use sweetops.Int.{ℤ}
use sweetops.Text.{Text}

pub data MovementType : Type 0 where
  reservation_created reservation_released consumption waste returned : MovementType
  manual_adjustment purchase_receipt : MovementType
  transfer_out transfer_in stock_count_adjustment : MovementType

pub record Ingredient : Type 0 where
  pub name : Text
  pub price : ℤ
  pub unit : Text
  pub standard_quantity : ℤ
  pub is_active : Bool

pub record IngredientStock : Type 0 where
  pub on_hand_quantity : ℤ
  pub reserved_quantity : ℤ
  pub unit : Text
  pub last_restocked : Option ℕ
  pub critical_quantity : Option ℤ
  pub minimum_quantity : Option ℤ
  pub target_quantity : Option ℤ
  pub threshold_updated_at : Option ℕ
  pub threshold_updated_by_user_id : Option ℕ

pub record OrderInventoryLine : Type 0 where
  pub id : ℕ
  pub store_id : ℕ
  pub order_id : ℕ
  pub order_item_id : ℕ
  pub ingredient_id : ℕ
  pub reserved_quantity : ℤ
  pub consumed_quantity : ℤ
  pub released_quantity : ℤ
  pub unit : Text

pub record Movement : Type 0 where
  pub id : ℕ
  pub store_id : ℕ
  pub ingredient_id : ℕ
  pub movement_type : MovementType
  pub quantity : ℤ
  pub delta_on_hand : ℤ
  pub delta_reserved : ℤ
  pub unit : Text
  pub order_id : Option ℕ
  pub order_item_id : Option ℕ
  pub order_inventory_line_id : Option ℕ
  pub reason : Option Text
  pub actor_user_id : Option ℕ
  pub idempotency_key_hash : Option Text
  pub request_hash : Option Text
  pub transfer_id : Option ℕ
  pub stock_count_id : Option ℕ

pub record InventoryTransfer : Type 0 where
  pub id : ℕ
  pub source_store_id : ℕ
  pub destination_store_id : ℕ
  pub ingredient_id : ℕ
  pub quantity : ℤ
  pub unit : Text
  pub reason : Text
  pub note : Option Text
  pub initiated_by_user_id : ℕ
  pub idempotency_key_hash : Text
  pub request_hash : Text

pub record InventoryStockCount : Type 0 where
  pub id : ℕ
  pub store_id : ℕ
  pub ingredient_id : ℕ
  pub counted_quantity : ℤ
  pub system_on_hand_quantity : ℤ
  pub system_reserved_quantity : ℤ
  pub unit : Text
  pub reason : Text
  pub note : Option Text
  pub counted_by_user_id : ℕ
  pub idempotency_key_hash : Text
  pub request_hash : Text

pub record InventoryThresholdUpdate : Type 0 where
  pub id : ℕ
  pub store_id : ℕ
  pub ingredient_id : ℕ
  pub old_critical_quantity : Option ℤ
  pub old_minimum_quantity : Option ℤ
  pub old_target_quantity : Option ℤ
  pub new_critical_quantity : Option ℤ
  pub new_minimum_quantity : Option ℤ
  pub new_target_quantity : Option ℤ
  pub reason : Text
  pub updated_by_user_id : ℕ
  pub idempotency_key_hash : Text
  pub request_hash : Text

pub data AuditAction : Type 0 where
  inventory_reserved inventory_reservation_released inventory_consumed : AuditAction
  inventory_waste_recorded inventory_adjusted inventory_received : AuditAction
  inventory_transferred inventory_stock_counted inventory_thresholds_updated : AuditAction

-- An audit_log row: what was done to which entity, and by which staff member.
pub record Audit : Type 0 where
  pub action : AuditAction
  pub entity_id : ℕ
  pub actor_id : Option ℕ

-- The unique constraint uq_stock_store_ingredient makes the stock table a partial map. The lines
-- stand in the order of `_lock_order_lines`, by ingredient_id and id; the other tables newest
-- first. `next_id` stands for the id sequences.
pub record Inventory : Type 0 where
  pub ingredients : ℕ → Option Ingredient
  pub stores : ℕ → Bool
  pub stock : ℕ → ℕ → Option IngredientStock
  pub lines : List OrderInventoryLine
  pub movements : List Movement
  pub transfers : List InventoryTransfer
  pub stock_counts : List InventoryStockCount
  pub threshold_updates : List InventoryThresholdUpdate
  pub audits : List Audit
  pub next_id : ℕ

-- The stock table with one row replaced.
abbrev pub set_stock :
    ℕ → ℕ → IngredientStock → (ℕ → ℕ → Option IngredientStock) → ℕ → ℕ → Option IngredientStock
set_stock store ingredient row stock s i =
    if store == s && ingredient == i then some row else stock s i

-- `_movement` with its keyword defaults: no lineage, no actor, no key.
abbrev pub movement : ℕ → ℕ → MovementType → ℤ → ℤ → ℤ → Text → Movement
movement store ingredient kind quantity on_hand reserved unit = record {
  id = 0;
  store_id = store;
  ingredient_id = ingredient;
  movement_type = kind;
  quantity = quantity;
  delta_on_hand = on_hand;
  delta_reserved = reserved;
  unit = unit;
  order_id = none;
  order_item_id = none;
  order_inventory_line_id = none;
  reason = none;
  actor_user_id = none;
  idempotency_key_hash = none;
  request_hash = none;
  transfer_id = none;
  stock_count_id = none;
}

-- `db.add(row)` of a ledger row, with the id that the flush gives it.
abbrev pub add_movement : Movement → Inventory → Inventory
add_movement m inv = record inv {
  movements = record m { id = inv.next_id } ∷ inv.movements;
  next_id = suc inv.next_id;
}

abbrev pub audit : AuditAction → ℕ → Option ℕ → Inventory → Inventory
audit action entity actor inv = record inv {
  audits = record { action = action; entity_id = entity; actor_id = actor } ∷ inv.audits;
}
