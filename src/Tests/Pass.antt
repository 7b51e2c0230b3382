-- ===== src/Tests/Pass.antt =====
-- The kitchen takes order 7 up.
use sweetops.Base.{◌≡◌, refl, none, some, [], ◌∷◌, Result, ok}
use sweetops.Int.{◌+ℤ◌, ◌-ℤ◌}
use sweetops.Inventory.Manual.Effect.{Keeps}
use sweetops.Inventory.Lifecycle.{
  is_pending, add_to, consume_line, consume_stock, settle_lines, consume_order,
  release_order_reservation,
}
use sweetops.Payment.Model.{new, in_prep, cancelled, delivered, set_order}
use sweetops.Kitchen.{
  Kitchen, StatusRequest, is_terminal, is_valid_transition, is_undo, validate_forward_transition,
  validate_transition, settle_stock, move_order, update_order_status,
}
use sweetops.Kitchen.Steps.{IsMoved, update_order_status-IsMoved}
use sweetops.Kitchen.Stock.{run, run-Keeps, taking_up-run}
use sweetops.Tests.Pantry.{pantry, pantry-IsConsistent}
use sweetops.Tests.Till.{waffles}

abbrev pass : Kitchen
pass = record {
  orders = set_order 7 (record waffles { status = new }) (λ id. none);
  inventory = pantry;
  events = [];
}

abbrev take_up : StatusRequest
take_up = record {
  order_id = 7;
  new_status = in_prep;
  store_id = some 1;
  actor_id = none;
  actor_user_id = some 9;
  now = 1000;
}

abbrev undo : StatusRequest
undo = record take_up { new_status = new; now = 2000 }

-- What the run below opens.
program : Unit {0}
unfolding update_order_status move_order is_terminal validate_transition is_undo
    validate_forward_transition is_valid_transition settle_stock consume_order
    release_order_reservation settle_lines consume_line consume_stock is_pending add_to ◌+ℤ◌ ◌-ℤ◌
program = tt

abbrev read_ok : Kitchen → Result Kitchen → Kitchen
read_ok st (ok st') = st'
read_ok st _ = st

abbrev taken : Kitchen
taken = read_ok pass (update_order_status take_up pass)

run_take_up : update_order_status take_up pass ≡ ok taken
unfolding program
run_take_up = refl

update_order_status-IsMoved_example : IsMoved take_up pass taken
update_order_status-IsMoved_example = update_order_status-IsMoved take_up pass taken run_take_up

taking_up-run_example : (run (undo ∷ take_up ∷ []) taken).inventory ≡ taken.inventory
taking_up-run_example =
    taking_up-run take_up (undo ∷ take_up ∷ []) pass taken (record waffles { status = new })
      pantry-IsConsistent refl refl refl run_take_up (refl, (refl, tt))

run-Keeps_example : Keeps pantry (run (take_up ∷ undo ∷ []) pass).inventory
run-Keeps_example = run-Keeps (take_up ∷ undo ∷ []) pass pantry-IsConsistent

abbrev served : Kitchen
served = record pass { orders = set_order 7 (record waffles { status = delivered }) (λ id. none) }

abbrev cancel_served : StatusRequest
cancel_served = record take_up { new_status = cancelled }
