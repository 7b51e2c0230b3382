-- ===== src/Tests/Pantry.antt =====
-- The inventory commands on the tables of two stores.
use sweetops.Base.{ℕ, ◌≡◌, refl, ◌≢◌, true, false, none, some, [], ◌∷◌, arith, ok, ◌↔◌}
use sweetops.Int.{ℤ, pos, neg, ◌+ℤ◌, ◌-ℤ◌, ◌≈ℤ◌, int_laws}
use sweetops.Text.{Text}
use sweetops.Digest.{codes}
use sweetops.Inventory.Model.{
  IngredientStock, OrderInventoryLine, Inventory, waste, set_stock, inventory_waste_recorded,
}
use sweetops.Inventory.Books.{
  on_hand_of, reserved_of, at_shelf, IsSound, rows-set_stock, IsConsistent, Explained-refl,
}
use sweetops.Inventory.Lifecycle.{
  outstanding_reservation, Totals, consume_order, release_order_reservation,
}
use sweetops.Inventory.Lifecycle.Orders.{
  OrderSettled, consume_order-OrderSettled, release_order_reservation-OrderSettled,
  consume_order-once,
}
use sweetops.Inventory.Commands.{Race, load_ingredient, load_stock_for_update, find_movement_by_key}
use sweetops.Inventory.Manual.{
  MovementResult, ManualCommand, manual_movement, resolve_replay, write_manual, insert_manual,
  manual_under_lock, apply_manual_movement, run_manual,
}
use sweetops.Inventory.Manual.Replay.{run_manual-run_manual}
use sweetops.Inventory.Manual.Effect.{IsFair, Keeps, run_manual-Keeps, run_manual_effect}
use sweetops.Inventory.Transfer.{
  TransferCommand, TransferResult, transfer_row, out_movement, in_movement, write_transfer,
  do_transfer, ensure_destination_stock_row, lock_transfer_stock, transfer_under_lock,
  insert_transfer, find_transfer_by_key, run_transfer,
}
use sweetops.Inventory.Transfer.Frame.{IsTransferred}
use sweetops.Inventory.Transfer.Outcome.{run_transfer-Keeps, run_transfer_effect}
use sweetops.Inventory.Threshold.{validate_thresholds}
use sweetops.Inventory.Threshold.Ladder.{IsLadder, validate_thresholds_iff}

abbrev pub gram : Text
gram = codes "g"

abbrev shelf : ℤ → ℤ → IngredientStock
shelf on_hand reserved = record {
  on_hand_quantity = on_hand;
  reserved_quantity = reserved;
  unit = gram;
  last_restocked = none;
  critical_quantity = some (pos 2000);
  minimum_quantity = some (pos 5000);
  target_quantity = some (pos 9000);
  threshold_updated_at = none;
  threshold_updated_by_user_id = none;
}

-- Order 7 of store 1 holds four of the ten kilograms of flour.
abbrev flour_line : OrderInventoryLine
flour_line = record {
  id = 1;
  store_id = 1;
  order_id = 7;
  order_item_id = 3;
  ingredient_id = 5;
  reserved_quantity = pos 4000;
  consumed_quantity = pos 0;
  released_quantity = pos 0;
  unit = gram;
}

abbrev pub pantry : Inventory
pantry = record {
  ingredients = λ i. some (record {
    name = codes "flour";
    price = pos 250;
    unit = gram;
    standard_quantity = pos 8000;
    is_active = true;
  });
  stores = λ s. true;
  stock = set_stock 1 5 (shelf (pos 10000) (pos 4000)) (λ s i. none);
  lines = flour_line ∷ [];
  movements = [];
  transfers = [];
  stock_counts = [];
  threshold_updates = [];
  audits = [];
  next_id = 2;
}

shelf-IsSound : IsSound (shelf (pos 10000) (pos 4000))
shelf-IsSound = record { promised_nonneg = ground arith; promised_covered = ground arith }

pub pantry-IsConsistent : IsConsistent pantry
pantry-IsConsistent = record {
  rows = λ s i row e.
      rows-set_stock 1 5 (shelf (pos 10000) (pos 4000)) (record pantry { stock = λ s i. none })
        shelf-IsSound (λ s i row e. absurd (cc)) s i row e;
  lines = (
    record {
      consumed_nonneg = ground arith;
      released_nonneg = ground arith;
      within_reserved = omega int_laws;
    },
    tt,
  );
  held = λ s i. grind int_laws;
}

abbrev pub quiet : Race
quiet = record { before_lock = λ inv. inv; before_insert = λ inv. inv }

pub quiet-IsFair : (s i : ℕ) → IsFair quiet s i
quiet-IsFair s i = record {
  lock_consistent = λ inv c. c;
  lock_explained = Explained-refl;
  insert_consistent = λ inv c. c;
  insert_explained = Explained-refl;
  row_kept = λ inv. refl;
}

abbrev spill : ManualCommand
spill = record {
  store_id = 1;
  ingredient_id = 5;
  movement_type = waste;
  quantity = pos 1500;
  delta_on_hand = neg (pos 1500);
  reason = some (codes "torn bag");
  actor_user_id = 9;
  audit_action = inventory_waste_recorded;
  key_hash = codes "k1";
  request_hash = codes "waste";
  now = 100;
}

-- What the runs below open.
program : Unit {0}
unfolding run_manual apply_manual_movement manual_under_lock insert_manual write_manual
    load_stock_for_update find_movement_by_key resolve_replay run_transfer do_transfer
    ensure_destination_stock_row lock_transfer_stock transfer_under_lock insert_transfer
    write_transfer find_transfer_by_key load_ingredient ◌+ℤ◌ ◌-ℤ◌
program = tt

consume_order-OrderSettled_example :
    (r : Totals × Inventory) × (consume_order (some 9) 1 7 pantry ≡ ok r)
    × OrderSettled outstanding_reservation 1 7 pantry r.1
consume_order-OrderSettled_example =
    consume_order-OrderSettled (some 9) 1 7 pantry pantry-IsConsistent

release_order_reservation-OrderSettled_example :
    (r : Totals × Inventory) × (release_order_reservation (some 9) 1 7 pantry ≡ ok r)
    × OrderSettled (λ l. pos 0) 1 7 pantry r.1
release_order_reservation-OrderSettled_example =
    release_order_reservation-OrderSettled (some 9) 1 7 pantry pantry-IsConsistent

-- The tables after the order is consumed, and after it is released.
abbrev consumed : Totals × Inventory
consumed = (consume_order-OrderSettled (some 9) 1 7 pantry pantry-IsConsistent).0

abbrev released : Totals × Inventory
released = (release_order_reservation-OrderSettled (some 9) 1 7 pantry pantry-IsConsistent).0

consume_order-once_example :
    (consume_order none 1 7 consumed.1 ≡ ok ([], consumed.1))
    × (release_order_reservation none 1 7 consumed.1 ≡ ok ([], consumed.1))
consume_order-once_example =
    consume_order-once (some 9) none 1 7 pantry pantry-IsConsistent consumed
      (consume_order-OrderSettled (some 9) 1 7 pantry pantry-IsConsistent).1

-- The spill, and the tables after it.
abbrev spilt : MovementResult
spilt = record { movement = record (manual_movement spill gram) { id = 2 }; replayed = false }

abbrev after_spill : Inventory
after_spill = write_manual spill gram (shelf (pos 10000) (pos 4000)) pantry

run_spill : run_manual quiet spill pantry ≡ ok (spilt, after_spill)
unfolding program
run_spill = refl

run_manual-Keeps_example : Keeps pantry after_spill
run_manual-Keeps_example =
    run_manual-Keeps quiet spill pantry spilt after_spill (quiet-IsFair 1 5) pantry-IsConsistent
      run_spill

run_manual_effect_example :
    (on_hand_of after_spill 1 5 ≈ℤ on_hand_of pantry 1 5 +ℤ at_shelf 1 5 1 5 (neg (pos 1500)))
    × (reserved_of after_spill 1 5 ≈ℤ reserved_of pantry 1 5)
run_manual_effect_example =
    run_manual_effect quiet spill pantry spilt after_spill (quiet-IsFair 1 5) run_spill refl 1 5

run_manual-run_manual_example :
    run_manual quiet spill after_spill
    ≡ ok (record { movement = spilt.movement; replayed = true }, after_spill)
run_manual-run_manual_example =
    run_manual-run_manual quiet quiet spill pantry spilt after_spill run_spill

-- Two kilograms go to store 2, which has no row of it yet.
abbrev sending : TransferCommand
sending = record {
  source_store_id = 1;
  destination_store_id = 2;
  ingredient_id = 5;
  quantity = pos 2000;
  reason = codes "shortage";
  note = none;
  actor_user_id = 9;
  key_hash = codes "k2";
  request_hash = codes "transfer";
}

abbrev sent : TransferResult
sent = record {
  transfer = transfer_row sending gram 2;
  source_movement = record (out_movement sending gram 2) { id = 2 };
  destination_movement = record (in_movement sending gram 2) { id = 3 };
  replayed = false;
}

abbrev pub empty_shelf : IngredientStock
empty_shelf = record (shelf (pos 0) (pos 0)) {
  critical_quantity = none;
  minimum_quantity = none;
  target_quantity = none;
}

abbrev after_sending : Inventory
after_sending = write_transfer sending gram (shelf (pos 10000) (pos 4000)) empty_shelf pantry

run_sending : run_transfer quiet sending pantry ≡ ok (sent, after_sending)
unfolding program
run_sending = refl

run_transfer-Keeps_example : Keeps pantry after_sending
run_transfer-Keeps_example =
    run_transfer-Keeps quiet sending pantry sent after_sending (ground arith) (quiet-IsFair 1 5)
      (quiet-IsFair 2 5) pantry-IsConsistent run_sending

run_transfer_effect_example :
    (sending.source_store_id ≢ sending.destination_store_id)
    × ((s i : ℕ)
        → (on_hand_of after_sending s i +ℤ at_shelf s i 1 5 (pos 2000)
            ≈ℤ on_hand_of pantry s i +ℤ at_shelf s i 2 5 (pos 2000))
          × (reserved_of after_sending s i ≈ℤ reserved_of pantry s i))
    × ((unit : Text) × IsTransferred sending unit pantry after_sending sent)
run_transfer_effect_example =
    run_transfer_effect quiet sending pantry sent after_sending (ground arith) (quiet-IsFair 1 5)
      (quiet-IsFair 2 5) run_sending refl

validate_thresholds_iff_example :
    (validate_thresholds (some (pos 2)) (some (pos 5)) none ≡ ok tt)
    ↔ IsLadder (some (pos 2)) (some (pos 5)) none
validate_thresholds_iff_example = validate_thresholds_iff (some (pos 2)) (some (pos 5)) none
