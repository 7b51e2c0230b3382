-- ===== src/Inventory/Transfer.antt =====
-- The store-to-store transfer of apps/api/app/services/inventory_service.py: transfer_stock and its
-- helpers.
pub mod Effect
pub mod Frame
pub mod Outcome
use sweetops.Base.{
  ℕ, suc, Bool, true, false, ◌&&◌, Option, none, some, List, [], ◌∷◌, ◌==◌, if◌then◌else◌, find,
  Result, ok, err, http, raise_if, idempotency_mismatch, same_store_transfer,
  destination_store_not_found, stock_not_configured, insufficient_available, internal_error, ◌>>=◌,
  ◌>>◌, not,
}
use sweetops.Int.{ℤ, pos, ◌+ℤ◌, ◌-ℤ◌, neg, ltb_ℤ}
use sweetops.Text.{Text, text_eq}
use sweetops.Quantity.{Decimal}
use sweetops.Digest.{codes, Json, text, number, str_amount, canonical}
use sweetops.Inventory.Model.{
  Ingredient, IngredientStock, Movement, transfer_out, transfer_in, InventoryTransfer, Inventory,
  MovementType, inventory_transferred, set_stock, movement, add_movement, audit,
}
use sweetops.Inventory.Lifecycle.{available}
use sweetops.Inventory.Commands.{
  Race, require_key, optional_text, require_reason, require_positive, load_ingredient,
}

-- `TransferResult`
pub record TransferResult : Type 0 where
  pub transfer : InventoryTransfer
  pub source_movement : Movement
  pub destination_movement : Movement
  pub replayed : Bool

-- A transfer request once its fields are checked and hashed.
pub record TransferCommand : Type 0 where
  pub source_store_id : ℕ
  pub destination_store_id : ℕ
  pub ingredient_id : ℕ
  pub quantity : ℤ
  pub reason : Text
  pub note : Option Text
  pub actor_user_id : ℕ
  pub key_hash : Text
  pub request_hash : Text

-- `_find_transfer_by_key`
abbrev has_transfer_key : ℕ → Text → InventoryTransfer → Bool
has_transfer_key store key t = t.source_store_id == store && text_eq t.idempotency_key_hash key

unfoldable pub find_transfer_by_key : Inventory → ℕ → Text → Option InventoryTransfer
find_transfer_by_key inv store key = find (has_transfer_key store key) inv.transfers

abbrev is_leg : ℕ → Bool → Movement → Bool
is_leg transfer out m = elim m.transfer_id [
  | none ↦ false
  | some t ↦ elim m.movement_type [
    | transfer_out ↦ t == transfer && out
    | transfer_in ↦ t == transfer && not out
    | _ ↦ false
  ]
]

-- `_transfer_legs`; a leg that is not there is a KeyError.
unfoldable pub transfer_legs : Inventory → ℕ → Result (Movement × Movement)
transfer_legs inv transfer = elim (find (is_leg transfer true) inv.movements) [
  | none ↦ err (http 500 internal_error)
  | some out_leg ↦ elim (find (is_leg transfer false) inv.movements) [
    | none ↦ err (http 500 internal_error)
    | some in_leg ↦ ok (out_leg, in_leg)
  ]
]

-- `_replay_transfer`
unfoldable pub replay_transfer :
    Inventory → InventoryTransfer → Text → Result (TransferResult × Inventory)
replay_transfer inv existing request_hash = do
  raise_if (not (text_eq existing.request_hash request_hash)) 409 idempotency_mismatch
  (out_leg, in_leg) ← transfer_legs inv existing.id
  ok (
    record {
      transfer = existing;
      source_movement = out_leg;
      destination_movement = in_leg;
      replayed = true;
    },
    inv,
  )

abbrev pub empty_row : Text → IngredientStock
empty_row unit = record {
  on_hand_quantity = pos 0;
  reserved_quantity = pos 0;
  unit = unit;
  last_restocked = none;
  critical_quantity = none;
  minimum_quantity = none;
  target_quantity = none;
  threshold_updated_at = none;
  threshold_updated_by_user_id = none;
}

-- `_ensure_destination_stock_row`: INSERT ... ON CONFLICT DO NOTHING.
unfoldable pub ensure_destination_stock_row : ℕ → ℕ → Text → Inventory → Inventory
ensure_destination_stock_row store ingredient unit inv = elim (inv.stock store ingredient) [
  | some row ↦ inv
  | none ↦ record inv { stock = set_stock store ingredient (empty_row unit) inv.stock }
]

abbrev pub transfer_row : TransferCommand → Text → ℕ → InventoryTransfer
transfer_row cmd unit id = record {
  id = id;
  source_store_id = cmd.source_store_id;
  destination_store_id = cmd.destination_store_id;
  ingredient_id = cmd.ingredient_id;
  quantity = cmd.quantity;
  unit = unit;
  reason = cmd.reason;
  note = cmd.note;
  initiated_by_user_id = cmd.actor_user_id;
  idempotency_key_hash = cmd.key_hash;
  request_hash = cmd.request_hash;
}

abbrev pub out_movement : TransferCommand → Text → ℕ → Movement
out_movement cmd unit id =
    record (movement cmd.source_store_id cmd.ingredient_id transfer_out cmd.quantity
      (neg cmd.quantity) (pos 0) unit) {
        reason = some cmd.reason;
        actor_user_id = some cmd.actor_user_id;
        transfer_id = some id;
      }

abbrev pub in_movement : TransferCommand → Text → ℕ → Movement
in_movement cmd unit id =
    record (movement cmd.destination_store_id cmd.ingredient_id transfer_in cmd.quantity
      cmd.quantity (pos 0) unit) { reason = some cmd.reason; transfer_id = some id }

-- The transfer row, each leg with its summary row, and the audit row. `source` and `destination`
-- are the locked rows.
abbrev pub write_source : TransferCommand → Text → IngredientStock → Inventory → Inventory
write_source cmd unit source inv = add_movement (out_movement cmd unit inv.next_id) (record inv {
  stock =
      set_stock cmd.source_store_id cmd.ingredient_id
        (record source { on_hand_quantity = source.on_hand_quantity -ℤ cmd.quantity }) inv.stock;
})

abbrev pub write_destination : TransferCommand → Text → ℕ → IngredientStock → Inventory → Inventory
write_destination cmd unit id destination inv = add_movement (in_movement cmd unit id) (record inv {
  stock =
      set_stock cmd.destination_store_id cmd.ingredient_id
        (record destination { on_hand_quantity = destination.on_hand_quantity +ℤ cmd.quantity })
        inv.stock;
})

unfoldable pub write_transfer :
    TransferCommand → Text → IngredientStock → IngredientStock → Inventory → Inventory
write_transfer cmd unit source destination inv =
    let moved =
      write_destination cmd unit inv.next_id destination (write_source cmd unit source inv) in
    audit inventory_transferred inv.next_id (some cmd.actor_user_id) (record moved {
      transfers = transfer_row cmd unit inv.next_id ∷ inv.transfers;
      next_id = suc moved.next_id;
    })

abbrev pub transfer_result : TransferCommand → Text → ℕ → TransferResult
transfer_result cmd unit id = record {
  transfer = transfer_row cmd unit id;
  source_movement = record (out_movement cmd unit id) { id = id };
  destination_movement = record (in_movement cmd unit id) { id = suc id };
  replayed = false;
}

-- The insert and the commit; a second transfer with the key is an IntegrityError, resolved to the
-- first.
unfoldable pub insert_transfer :
    TransferCommand
    → Text
    → IngredientStock
    → IngredientStock
    → Inventory
    → Result (TransferResult × Inventory)
insert_transfer cmd unit source destination inv =
    elim (find_transfer_by_key inv cmd.source_store_id cmd.key_hash) [
      | some winner ↦ replay_transfer inv winner cmd.request_hash
      | none ↦
          ok (transfer_result cmd unit inv.next_id, write_transfer cmd unit source destination inv)
    ]

-- Once both rows are locked: the re-check, the guard on AVAILABLE, the insert. A rollback takes the
-- ensured row back, so `committed` is without it; the write sets that row.
unfoldable pub transfer_under_lock :
    Race
    → TransferCommand
    → Text
    → Inventory
    → IngredientStock
    → IngredientStock
    → Result (TransferResult × Inventory)
transfer_under_lock race cmd unit committed source destination =
    elim (find_transfer_by_key committed cmd.source_store_id cmd.key_hash) [
      | some existing ↦ replay_transfer committed existing cmd.request_hash
      | none ↦ do
        raise_if (ltb_ℤ (available source) cmd.quantity) 409 insufficient_available
        insert_transfer cmd unit source destination (race.before_insert committed)
    ]

-- The rows of both stores under the lock. The destination has one since it was ensured.
unfoldable pub lock_transfer_stock :
    Inventory → TransferCommand → Result (IngredientStock × IngredientStock)
lock_transfer_stock inv cmd = elim (inv.stock cmd.source_store_id cmd.ingredient_id) [
  | none ↦ err (http 404 stock_not_configured)
  | some source ↦ elim (inv.stock cmd.destination_store_id cmd.ingredient_id) [
    | none ↦ err (http 500 internal_error)
    | some destination ↦ ok (source, destination)
  ]
]

-- The `try` block of `transfer_stock`. The destination row is inserted before the wait for the locks
-- and is seen by this transaction alone, so it is ensured over what the others commit.
unfoldable pub do_transfer :
    Race → TransferCommand → Inventory → Result (TransferResult × Inventory)
do_transfer race cmd inv = do
  raise_if (not (inv.stores cmd.destination_store_id)) 404 destination_store_not_found
  ingredient ← load_ingredient inv cmd.ingredient_id
  let committed = race.before_lock inv
  (source, destination) ←
      lock_transfer_stock
        (ensure_destination_stock_row cmd.destination_store_id cmd.ingredient_id ingredient.unit
          committed)
        cmd
  transfer_under_lock race cmd ingredient.unit committed source destination

unfoldable pub run_transfer :
    Race → TransferCommand → Inventory → Result (TransferResult × Inventory)
run_transfer race cmd inv = do
  raise_if (cmd.destination_store_id == cmd.source_store_id) 422 same_store_transfer
  elim (find_transfer_by_key inv cmd.source_store_id cmd.key_hash) [
    | some existing ↦ replay_transfer inv existing cmd.request_hash
    | none ↦ do_transfer race cmd inv
  ]

-- A request body, with what the session and the headers say.
pub record TransferRequest : Type 0 where
  pub source_store_id : ℕ
  pub destination_store_id : ℕ
  pub ingredient_id : ℕ
  pub quantity : Decimal
  pub reason : Option Text
  pub note : Option Text
  pub actor_user_id : ℕ
  pub idempotency_key : Option Text

abbrev or_empty : Option Text → Text
or_empty none = []
or_empty (some s) = s

-- `transfer_stock`; `sha256` is hashlib's.
unfoldable pub transfer_stock :
    (Text → Text) → Race → TransferRequest → Inventory → Result (TransferResult × Inventory)
transfer_stock sha256 race req inv = do
  key ← require_key req.idempotency_key
  qty ← require_positive req.quantity
  why ← require_reason req.reason
  let memo = optional_text req.note
  run_transfer race
      (record {
        source_store_id = req.source_store_id;
        destination_store_id = req.destination_store_id;
        ingredient_id = req.ingredient_id;
        quantity = qty;
        reason = why;
        note = memo;
        actor_user_id = req.actor_user_id;
        key_hash = sha256 key;
        request_hash = sha256 (
            canonical (
              (codes "cmd", text (codes "transfer"))
              ∷ (codes "destination_store_id", number req.destination_store_id)
              ∷ (codes "ingredient_id", number req.ingredient_id)
              ∷ (codes "quantity", text (str_amount 3 qty))
              ∷ (codes "reason", text why)
              ∷ (codes "note", text (or_empty memo))
              ∷ []));
      })
      inv
