-- ===== src/Tests/Till.antt =====
-- The payment commands on one table's order.
use mathlib.Core.Path.{subst}
use sweetops.Base.{
  ℕ, ◌≡◌, refl, true, false, none, some, List, [], ◌∷◌, Result, ok, Bool-cases, inl, inr, sym, ◌==◌,
}
use sweetops.Int.{pos, ◌+ℤ◌, ◌-ℤ◌, int_laws}
use sweetops.Text.{Text}
use sweetops.Quantity.{q2}
use sweetops.Digest.{codes, canonical}
use sweetops.Inventory.Lifecycle.{lock_order}
use sweetops.Inventory.Commands.{require_key}
use sweetops.Payment.Model.{
  Order, ready, partially_paid, not_refunded, Ledger, set_order, audit, payment_idempotent_replay,
}
use sweetops.Payment.Summary.{
  IsSound, IsSummary, outstanding, recompute_order_summary, recompute_order_summary_lem,
}
use sweetops.Payment.Collect.{
  Race, Receipt, find_settlement_by_key, resolve_settlement_replay, lock_orders, allocate_all,
  allocate, pay, pay_all, plan, settle, collect_under_lock, do_collect,
}
use sweetops.Payment.Collect.Commands.{
  SettlementRequest, PaymentRequest, validate_method, require_amount, load_order,
  collect_settlement, collect_order_payment,
}
use sweetops.Inventory.Books.{All}
use sweetops.Payment.Collect.Charge.{IsBalanced}
use sweetops.Payment.Collect.Balance.{
  IsFair, collect_settlement-IsBalanced, collect_order_payment-IsBalanced,
}
use sweetops.Payment.Collect.Clearing.{IsClear}
use sweetops.Payment.Collect.Cleared.{collect_settlement-IsClear}
use sweetops.Payment.Collect.Replay.{
  replay_of, collect_settlement-collect_settlement, collect_order_payment-collect_order_payment,
}

-- An order of 150.00 at table 4 of store 1, of which 50.00 are paid.
abbrev pub waffles : Order
waffles = record {
  store_id = 1;
  table_id = some 4;
  total_amount = pos 15000;
  status = ready;
  payment_status = partially_paid;
  refund_status = not_refunded;
  paid_amount = pos 5000;
  refunded_amount = pos 0;
}

pub waffles-IsSound : IsSound waffles
waffles-IsSound = record {
  refunded_nonneg = omega int_laws;
  refunded_covered = omega int_laws;
  not_overpaid = omega int_laws;
}

recompute_order_summary_lem_example : IsSummary waffles (recompute_order_summary waffles)
recompute_order_summary_lem_example = recompute_order_summary_lem waffles waffles-IsSound

abbrev till : Ledger
till = record {
  orders = set_order 7 waffles (λ id. none);
  tables = λ t. some 1;
  settlements = [];
  allocations = record { id = 2; settlement_id = 1; order_id = 7; amount = pos 5000 } ∷ [];
  refunds = [];
  audits = [];
  next_id = 20;
}

abbrev quiet : Race
quiet = record { before_lock = λ led. led; before_insert = λ led. led }

-- A hash without collisions.
abbrev plain : Text → Text
plain text = text

abbrev bill : SettlementRequest
bill = record {
  store_id = 1;
  user_id = 9;
  idempotency_key = some (codes "k1");
  table_id = 4;
  order_ids = 7 ∷ 7 ∷ [];
  payment_method = codes "CARD";
  note = none;
  terminal_reference = none;
}

abbrev part : PaymentRequest
part = record {
  store_id = 1;
  user_id = 9;
  idempotency_key = some (codes "k2");
  order_id = 7;
  payment_method = codes "CASH";
  amount = some (record { coefficient = pos 3000; places = 2 });
  note = none;
  terminal_reference = none;
}

-- What the runs below open.
program : Unit {0}
unfolding collect_settlement collect_order_payment do_collect collect_under_lock plan settle pay_all
    pay allocate allocate_all lock_orders find_settlement_by_key resolve_settlement_replay
    validate_method require_amount load_order require_key lock_order canonical q2 outstanding
    recompute_order_summary ◌+ℤ◌ ◌-ℤ◌
program = tt

abbrev read_ok {ℓ} : {A : Type ℓ} → A → Result A → A
read_ok d (ok a) = a
read_ok d _ = d

abbrev nothing : Receipt × Ledger
nothing = (record { settlement_id = 0; gross_amount = pos 0; replayed = true }, till)

abbrev billed : Receipt × Ledger
billed = read_ok nothing (collect_settlement plain quiet bill till)

run_bill : collect_settlement plain quiet bill till ≡ ok billed
unfolding program
run_bill = refl

collect_settlement-collect_settlement_example :
    collect_settlement plain quiet bill billed.1
    ≡ ok (replay_of billed.0, audit payment_idempotent_replay billed.0.settlement_id 9 billed.1)
collect_settlement-collect_settlement_example =
    collect_settlement-collect_settlement plain quiet quiet till billed.0 billed.1 bill run_bill

abbrev paid_part : Receipt × Ledger
paid_part = read_ok nothing (collect_order_payment plain quiet part till)

run_part : collect_order_payment plain quiet part till ≡ ok paid_part
unfolding program
run_part = refl

collect_order_payment-collect_order_payment_example :
    collect_order_payment plain quiet part paid_part.1
    ≡ ok (
      replay_of paid_part.0,
      audit payment_idempotent_replay paid_part.0.settlement_id 9 paid_part.1,
    )
collect_order_payment-collect_order_payment_example =
    collect_order_payment-collect_order_payment plain quiet quiet till paid_part.0 paid_part.1 part
      run_part

till-IsBalanced : IsBalanced till
till-IsBalanced = record {
  paid_is_allocated = λ id o e. elim (Bool-cases (7 == id)) [
    | inl same ↦
        let e' : some waffles ≡ some o = rw same at e in
        let q : pos 5000 ≡ o.paid_amount = cc in rw (same, sym q) (omega int_laws)
    | inr other ↦ let e' : none ≡ some o = rw other at e in absurd (cc)
  ];
  sound = λ id o e. elim (Bool-cases (7 == id)) [
    | inl same ↦ let e' : some waffles ≡ some o = rw same at e in subst IsSound (cc) waffles-IsSound
    | inr other ↦ let e' : none ≡ some o = rw other at e in absurd (cc)
  ];
}

All-kept : (led : Ledger) (ids : List ℕ) → All (λ id. led.orders id ≡ led.orders id) ids
All-kept led [] = tt
All-kept led (id ∷ ids) = (refl, All-kept led ids)

quiet-IsFair : (ids : List ℕ) → IsFair quiet ids
quiet-IsFair ids = record {
  lock_balanced = λ led b. b;
  insert_balanced = λ led b. b;
  rows_kept = λ led. All-kept led (lock_order ids);
}

collect_settlement-IsBalanced_example : IsBalanced billed.1
collect_settlement-IsBalanced_example =
    collect_settlement-IsBalanced plain quiet till billed.0 billed.1 bill
      (quiet-IsFair (7 ∷ 7 ∷ [])) till-IsBalanced run_bill

collect_order_payment-IsBalanced_example : IsBalanced paid_part.1
collect_order_payment-IsBalanced_example =
    collect_order_payment-IsBalanced plain quiet till paid_part.0 paid_part.1 part
      (quiet-IsFair (7 ∷ [])) till-IsBalanced run_part

billed_fresh : billed.0.replayed ≡ false
unfolding program
billed_fresh = refl

collect_settlement-IsClear_example : All (IsClear billed.1) (lock_order bill.order_ids)
collect_settlement-IsClear_example =
    collect_settlement-IsClear plain quiet till billed.0 billed.1 bill (quiet-IsFair (7 ∷ 7 ∷ []))
      run_bill billed_fresh
