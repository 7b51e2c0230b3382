-- ===== src/Tests/Drawer.antt =====
-- A cashier's evening: a shift is opened, a payment comes in while it is closed, and it is closed.
use sweetops.Base.{ℕ, ◌≡◌, refl, true, false, none, some, [], ◌∷◌, arith, ok, err, Result}
use sweetops.Int.{ℤ, pos}
use sweetops.Text.{Text}
use sweetops.Quantity.{q2}
use sweetops.Digest.{codes, canonical, str_nat, str_amount}
use sweetops.Inventory.Commands.{require_key, optional_text}
use sweetops.Payment.Model.{PaymentSettlement, PaymentRefund}
use sweetops.Shift.{
  opened, CashierShift, Drawer, pay_rows, ref_rows, add_method, group_by_method, get_method,
  sum_values, compute_shift_totals,
}
use sweetops.Shift.Commands.{
  ShiftOpenRequest, ShiftCloseRequest, ShiftResponse, Race, require_counted, load_shift,
  authorize_close, close_locked, close_under_lock, close_found, close_shift,
}
use sweetops.Shift.Sums.{Adds, compute_shift_totals-Adds}
use sweetops.Shift.OneOpen.{IsOneOpen, IsGuarded, opens, closes, run, run-IsOneOpen}
use sweetops.Shift.Close.{IsClosed, KeepsOwners, close_shift-IsClosed}

-- A hash without collisions.
abbrev plain : Text → Text
plain text = text

abbrev payment : ℕ → Text → ℤ → PaymentSettlement
payment id method amount = record {
  id = id;
  store_id = 1;
  table_id = some 4;
  cashier_user_id = 9;
  payment_method = method;
  gross_amount = amount;
  note = none;
  terminal_reference = none;
  idempotency_key_hash = codes "k";
  request_hash = codes "r";
}

abbrev refund : PaymentRefund
refund = record {
  id = 3;
  store_id = 1;
  settlement_id = 1;
  allocation_id = 2;
  order_id = 7;
  amount = pos 500;
  reason = codes "cold";
  refunded_by_user_id = 8;
  idempotency_key_hash = codes "k3";
  request_hash = codes "r3";
  order_issue_id = none;
}

abbrev evening : CashierShift
evening = record {
  id = 5;
  store_id = 1;
  cashier_user_id = 9;
  status = opened;
  opened_at = 50;
  opening_cash_amount = pos 10000;
  open_note = none;
  opened_idempotency_key_hash = codes "k5";
  opened_request_hash = codes "r5";
  snapshot = none;
}

-- A cash payment of 50.00 at 100, of which 5.00 went back at 150.
abbrev drawer : Drawer
drawer = record {
  settlements = (payment 1 (codes "CASH") (pos 5000), 100) ∷ [];
  refunds = (refund, 150) ∷ [];
  shifts = evening ∷ [];
  audits = [];
  next_id = 6;
}

compute_shift_totals-Adds_example :
    Adds
      (compute_shift_totals drawer 1 9 50 100)
      (compute_shift_totals drawer 1 9 100 200)
      (compute_shift_totals drawer 1 9 50 200)
compute_shift_totals-Adds_example =
    compute_shift_totals-Adds 1 9 50 100 200 (omega arith) (omega arith) drawer

-- A card payment commits while a close waits.
abbrev late_card : Race
late_card = record {
  before_insert = λ d. d;
  before_lock =
      λ d. record d { settlements = (payment 4 (codes "CARD") (pos 2000), 190) ∷ d.settlements };
}

abbrev close_evening : ShiftCloseRequest
close_evening = record {
  store_id = 1;
  user_id = 9;
  can_read_all = false;
  idempotency_key = some (codes "close-5");
  shift_id = 5;
  counted_closing_cash_amount = record { coefficient = pos 14400; places = 2 };
  close_note = none;
  now = 200;
}

abbrev open_again : ShiftOpenRequest
open_again = record {
  store_id = 1;
  user_id = 9;
  idempotency_key = some (codes "open-6");
  opening_cash_amount = record { coefficient = pos 100; places = 0 };
  open_note = none;
  now = 250;
}

drawer-IsOneOpen : IsOneOpen drawer
drawer-IsOneOpen store cashier = ground arith

late_card-IsGuarded : IsGuarded late_card
late_card-IsGuarded = record { inserts = λ d one. one; locks = λ d one. one }

run-IsOneOpen_example : IsOneOpen (
    run plain
      (opens late_card open_again
        ∷ closes late_card close_evening
        ∷ opens late_card open_again
        ∷ [])
      drawer)
run-IsOneOpen_example =
    run-IsOneOpen plain
      (opens late_card open_again
        ∷ closes late_card close_evening
        ∷ opens late_card open_again
        ∷ [])
      drawer (late_card-IsGuarded, (late_card-IsGuarded, (late_card-IsGuarded, tt)))
      drawer-IsOneOpen

-- What the close opens.
program : Unit {0}
unfolding close_shift close_found close_under_lock close_locked authorize_close load_shift
    require_counted require_key optional_text compute_shift_totals pay_rows ref_rows add_method
    group_by_method get_method sum_values canonical str_nat str_amount q2
program = tt

abbrev unread : ShiftResponse × Drawer
unread = (record { shift = evening; replayed = true }, drawer)

abbrev read_ok : Result (ShiftResponse × Drawer) → ShiftResponse × Drawer
read_ok (ok a) = a
read_ok (err _) = unread

-- The evening is closed with 144.00 in the drawer, where 145.00 were expected.
abbrev ended : ShiftResponse × Drawer
ended = read_ok (close_shift plain late_card close_evening drawer)

run_ended : close_shift plain late_card close_evening drawer ≡ ok ended
unfolding program
run_ended = refl

fresh : ended.0.replayed ≡ false
unfolding program
fresh = refl

keeps : KeepsOwners drawer (late_card.before_lock drawer)
keeps id s t here there = let same : s ≡ t = ground arith in (ground arith, ground arith)

close_shift-IsClosed_example :
    IsClosed plain close_evening (late_card.before_lock drawer) ended.1 ended.0.shift
close_shift-IsClosed_example =
    close_shift-IsClosed plain late_card close_evening drawer ended.1 ended.0 keeps run_ended fresh
