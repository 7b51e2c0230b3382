-- ===== src/Inventory/Manual.antt =====
-- The manual stock commands of apps/api/app/services/inventory_service.py:
-- _apply_manual_movement, record_purchase_receipt, record_manual_adjustment and record_waste.
pub mod Replay
pub mod Effect
use sweetops.Base.{
  ℕ, Bool, true, false, ◌&&◌, ◌||◌, Option, none, some, List, [], ◌∷◌, ◌==◌, if◌then◌else◌, Result,
  ok, err, http, raise_if, idempotency_mismatch, invalid_quantity, insufficient_on_hand, ◌>>=◌,
  ◌>>◌,
}
use sweetops.Int.{ℤ, pos, ◌+ℤ◌, neg, abs, ltb_ℤ, eqb_ℤ}
use sweetops.Text.{Text, text_eq}
use sweetops.Quantity.{Decimal, q3}
use sweetops.Digest.{codes, Json, text, number, str_amount, canonical}
use sweetops.Inventory.Model.{
  Ingredient, IngredientStock, Movement, MovementType, manual_adjustment, purchase_receipt, waste,
  Inventory, AuditAction, inventory_waste_recorded, inventory_adjusted, inventory_received,
  set_stock, movement, add_movement, audit,
}
use sweetops.Inventory.Commands.{
  Race, require_key, optional_text, require_reason, require_positive, load_stock_for_update,
  hash_is, find_movement_by_key,
}

-- `MovementResult`
pub record MovementResult : Type 0 where
  pub movement : Movement
  pub replayed : Bool

-- The keyword arguments of `_apply_manual_movement`; `now` is the value of `func.now()`.
pub record ManualCommand : Type 0 where
  pub store_id : ℕ
  pub ingredient_id : ℕ
  pub movement_type : MovementType
  pub quantity : ℤ
  pub delta_on_hand : ℤ
  pub reason : Option Text
  pub actor_user_id : ℕ
  pub audit_action : AuditAction
  pub key_hash : Text
  pub request_hash : Text
  pub now : ℕ

-- `_resolve_replay`
unfoldable pub resolve_replay : Movement → Text → Result MovementResult
resolve_replay existing request_hash =
    if hash_is existing.request_hash request_hash
    then ok (record { movement = existing; replayed = true })
    else err (http 409 idempotency_mismatch)

-- `if movement_type == MOVEMENT_PURCHASE_RECEIPT: stock.last_restocked = func.now()`
abbrev pub restocked : MovementType → ℕ → Option ℕ → Option ℕ
restocked purchase_receipt now last = some now
restocked _ now last = last

-- The ledger row of a command.
abbrev pub manual_movement : ManualCommand → Text → Movement
manual_movement cmd unit =
    record (movement cmd.store_id cmd.ingredient_id cmd.movement_type cmd.quantity cmd.delta_on_hand
      (pos 0) unit) {
        reason = cmd.reason;
        actor_user_id = some cmd.actor_user_id;
        idempotency_key_hash = some cmd.key_hash;
        request_hash = some cmd.request_hash;
      }

-- What the command writes: the ledger row, the summary row, the audit row.
unfoldable pub write_manual : ManualCommand → Text → IngredientStock → Inventory → Inventory
write_manual cmd unit stock inv =
    audit cmd.audit_action cmd.ingredient_id (some cmd.actor_user_id) (
      add_movement (manual_movement cmd unit) (record inv {
        stock =
            set_stock cmd.store_id cmd.ingredient_id
              (record stock {
                on_hand_quantity = stock.on_hand_quantity +ℤ cmd.delta_on_hand;
                last_restocked = restocked cmd.movement_type cmd.now stock.last_restocked;
              })
              inv.stock;
      }))

-- The insert and the commit: the unique index on (store_id, idempotency_key_hash) makes a second
-- row with the key an IntegrityError, which is resolved to the first.
unfoldable pub insert_manual :
    ManualCommand → Text → IngredientStock → Inventory → Result (MovementResult × Inventory)
insert_manual cmd unit stock inv = elim (find_movement_by_key inv cmd.store_id cmd.key_hash) [
  | some winner ↦ do result ← resolve_replay winner cmd.request_hash; ok (result, inv)
  | none ↦ ok (
    record { movement = record (manual_movement cmd unit) { id = inv.next_id }; replayed = false },
    write_manual cmd unit stock inv,
  )
]

-- `_apply_manual_movement` once it holds the lock: the definitive re-check, the guard, the insert.
unfoldable pub manual_under_lock :
    Race
    → ManualCommand
    → Inventory
    → Ingredient × IngredientStock
    → Result (MovementResult × Inventory)
manual_under_lock race cmd locked (ingredient, stock) =
    elim (find_movement_by_key locked cmd.store_id cmd.key_hash) [
      | some existing ↦ do result ← resolve_replay existing cmd.request_hash; ok (result, locked)
      | none ↦ do
        let new_on_hand = stock.on_hand_quantity +ℤ cmd.delta_on_hand
        raise_if (ltb_ℤ new_on_hand (pos 0) || ltb_ℤ new_on_hand stock.reserved_quantity) 409
            insufficient_on_hand
        insert_manual cmd ingredient.unit stock (race.before_insert locked)
    ]

-- `_apply_manual_movement`, from the tables as they are when the command asks for the lock.
unfoldable pub apply_manual_movement :
    Race → ManualCommand → Inventory → Result (MovementResult × Inventory)
apply_manual_movement race cmd inv = do
  loaded ← load_stock_for_update (race.before_lock inv) cmd.store_id cmd.ingredient_id
  manual_under_lock race cmd (race.before_lock inv) loaded

-- The fast path, before the locked one.
unfoldable pub run_manual : Race → ManualCommand → Inventory → Result (MovementResult × Inventory)
run_manual race cmd inv = elim (find_movement_by_key inv cmd.store_id cmd.key_hash) [
  | some existing ↦ do result ← resolve_replay existing cmd.request_hash; ok (result, inv)
  | none ↦ apply_manual_movement race cmd inv
]

abbrev or_empty : Option Text → Text
or_empty none = []
or_empty (some s) = s

-- A request body, with what the session and the headers say.
pub record ManualRequest : Type 0 where
  pub store_id : ℕ
  pub ingredient_id : ℕ
  pub quantity : Decimal
  pub reason : Option Text
  pub actor_user_id : ℕ
  pub idempotency_key : Option Text
  pub now : ℕ

-- `sha256` is hashlib's, over the text's bytes.
module _ (sha256 : Text → Text) where
  -- `_sha256(_canonical({...}))` of the three commands: their name, and the name of the amount.
  abbrev pub manual_hash : Text → Text → ℕ → ℤ → Text → Text
  manual_hash cmd amount_name ingredient amount reason = sha256 (
      canonical (
        (codes "cmd", text cmd)
        ∷ (codes "ingredient_id", number ingredient)
        ∷ (amount_name, text (str_amount 3 amount))
        ∷ (codes "reason", text reason)
        ∷ []))

  -- `record_purchase_receipt`
  unfoldable pub record_purchase_receipt :
      Race → ManualRequest → Inventory → Result (MovementResult × Inventory)
  record_purchase_receipt race req inv = do
    key ← require_key req.idempotency_key
    qty ← require_positive req.quantity
    let note = optional_text req.reason
    run_manual race
        (record {
          store_id = req.store_id;
          ingredient_id = req.ingredient_id;
          movement_type = purchase_receipt;
          quantity = qty;
          delta_on_hand = qty;
          reason = note;
          actor_user_id = req.actor_user_id;
          audit_action = inventory_received;
          key_hash = sha256 key;
          request_hash =
              manual_hash (codes "purchase_receipt") (codes "quantity") req.ingredient_id qty
                (or_empty note);
          now = req.now;
        })
        inv

  -- `record_manual_adjustment`; `req.quantity` is its `delta`.
  unfoldable pub record_manual_adjustment :
      Race → ManualRequest → Inventory → Result (MovementResult × Inventory)
  record_manual_adjustment race req inv = do
    key ← require_key req.idempotency_key
    note ← require_reason req.reason
    let signed = q3 req.quantity
    raise_if (eqb_ℤ signed (pos 0)) 422 invalid_quantity
    run_manual race
        (record {
          store_id = req.store_id;
          ingredient_id = req.ingredient_id;
          movement_type = manual_adjustment;
          quantity = abs signed;
          delta_on_hand = signed;
          reason = some note;
          actor_user_id = req.actor_user_id;
          audit_action = inventory_adjusted;
          key_hash = sha256 key;
          request_hash =
              manual_hash (codes "manual_adjustment") (codes "delta") req.ingredient_id signed note;
          now = req.now;
        })
        inv

  -- `record_waste`
  unfoldable pub record_waste :
      Race → ManualRequest → Inventory → Result (MovementResult × Inventory)
  record_waste race req inv = do
    key ← require_key req.idempotency_key
    qty ← require_positive req.quantity
    note ← require_reason req.reason
    run_manual race
        (record {
          store_id = req.store_id;
          ingredient_id = req.ingredient_id;
          movement_type = waste;
          quantity = qty;
          delta_on_hand = neg qty;
          reason = some note;
          actor_user_id = req.actor_user_id;
          audit_action = inventory_waste_recorded;
          key_hash = sha256 key;
          request_hash = manual_hash (codes "waste") (codes "quantity") req.ingredient_id qty note;
          now = req.now;
        })
        inv
