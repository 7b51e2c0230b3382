-- ===== src/Inventory/Manual/Replay.antt =====
-- The replays of the manual stock commands of apps/api/app/services/inventory_service.py, beside
-- other transactions.
use sweetops.Base.{
  ◌≡◌, true, false, some, arith, ok, err, http, idempotency_mismatch, ◌>>=◌, >>=-eq-ok,
}
use sweetops.Text.{Text, text_eq_refl}
use sweetops.Inventory.Model.{Ingredient, IngredientStock, Movement, Inventory}
use sweetops.Inventory.Commands.{Race, find_movement_by_key, load_stock_for_update, hash_is}
use sweetops.Inventory.Manual.{
  MovementResult, ManualCommand, resolve_replay, write_manual, manual_movement, insert_manual,
  manual_under_lock, apply_manual_movement, run_manual,
}

-- The command's own row is found by its key.
find-write_manual :
    (cmd : ManualCommand) (unit : Text) (stock : IngredientStock) (inv : Inventory)
    → find_movement_by_key (write_manual cmd unit stock inv) cmd.store_id cmd.key_hash
      ≡ some (record (manual_movement cmd unit) { id = inv.next_id })
unfolding find_movement_by_key write_manual
find-write_manual cmd unit stock inv = ground (arith, text_eq_refl cmd.key_hash)

-- A result of the command: its row is in the tables, under its key, with its payload's hash.
abbrev IsRecorded : ManualCommand → MovementResult × Inventory → Type 0
IsRecorded cmd (res, inv) =
    (find_movement_by_key inv cmd.store_id cmd.key_hash ≡ some res.movement)
    × (hash_is res.movement.request_hash cmd.request_hash ≡ true)

resolve-IsRecorded :
    (cmd : ManualCommand) (inv : Inventory) (m : Movement) (r : MovementResult × Inventory)
    → find_movement_by_key inv cmd.store_id cmd.key_hash ≡ some m
    → (resolve_replay m cmd.request_hash >>= λ res. ok (res, inv)) ≡ ok r
    → IsRecorded cmd r
unfolding resolve_replay
resolve-IsRecorded cmd inv m r e h = ground arith

insert-IsRecorded :
    (cmd : ManualCommand) (unit : Text) (stock : IngredientStock) (inv : Inventory)
    (r : MovementResult × Inventory)
    → insert_manual cmd unit stock inv ≡ ok r
    → IsRecorded cmd r
unfolding insert_manual resolve_replay
insert-IsRecorded cmd unit stock inv r h =
    ground (arith, find-write_manual cmd unit stock inv, text_eq_refl cmd.request_hash)

under_lock-IsRecorded :
    (race : Race) (cmd : ManualCommand) (inv : Inventory) (loaded : Ingredient × IngredientStock)
    (r : MovementResult × Inventory)
    → manual_under_lock race cmd inv loaded ≡ ok r
    → IsRecorded cmd r
unfolding manual_under_lock resolve_replay
under_lock-IsRecorded race cmd inv loaded r h =
    ground (arith, insert-IsRecorded cmd loaded.0.unit loaded.1 (race.before_insert inv) r)

apply-IsRecorded :
    (race : Race) (cmd : ManualCommand) (inv : Inventory) (r : MovementResult × Inventory)
    → apply_manual_movement race cmd inv ≡ ok r
    → IsRecorded cmd r
unfolding apply_manual_movement
apply-IsRecorded race cmd inv r h =
    let (loaded, _, e) =
      >>=-eq-ok (load_stock_for_update (race.before_lock inv) cmd.store_id cmd.ingredient_id) _ h in
    under_lock-IsRecorded race cmd (race.before_lock inv) loaded r e

run-IsRecorded :
    (race : Race) (cmd : ManualCommand) (inv : Inventory) (r : MovementResult × Inventory)
    → run_manual race cmd inv ≡ ok r
    → IsRecorded cmd r
unfolding run_manual resolve_replay
run-IsRecorded race cmd inv r h = ground (arith, apply-IsRecorded race cmd inv r)

-- Once a manual command has succeeded, the same command, with any other transactions in between its
-- own steps, returns the ledger row of the first run as a replay and writes nothing.
pub run_manual-run_manual :
    (race later : Race) (cmd : ManualCommand) (inv : Inventory) (res : MovementResult)
    (inv' : Inventory)
    → run_manual race cmd inv ≡ ok (res, inv')
    → run_manual later cmd inv' ≡ ok (record { movement = res.movement; replayed = true }, inv')
unfolding run_manual resolve_replay
run_manual-run_manual race later cmd inv res inv' h =
    let (found, same) = run-IsRecorded race cmd inv (res, inv') h in ground (arith)

-- With the key of a recorded row and another payload, a manual command is refused with a 409.
run_manual-mismatch :
    (race : Race) (cmd : ManualCommand) (inv : Inventory) (existing : Movement)
    → find_movement_by_key inv cmd.store_id cmd.key_hash ≡ some existing
    → hash_is existing.request_hash cmd.request_hash ≡ false
    → run_manual race cmd inv ≡ err (http 409 idempotency_mismatch)
unfolding run_manual resolve_replay
run_manual-mismatch race cmd inv existing e h = ground arith
