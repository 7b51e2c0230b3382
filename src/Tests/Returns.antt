-- ===== src/Tests/Returns.antt =====
-- Money goes back at the till, and an issue is resolved by a full refund.
use mathlib.Core.Path.{subst}
use sweetops.Base.{
  ℕ, ◌≡◌, refl, true, false, none, some, [], ◌∷◌, arith, Result, ok, Bool-cases, inl, inr, sym,
  ◌==◌,
}
use sweetops.Int.{ℤ, pos, ◌≤ℤ◌, ◌+ℤ◌, ◌-ℤ◌, int_laws}
use sweetops.Text.{Text}
use sweetops.Quantity.{q2}
use sweetops.Digest.{codes, canonical, str_nat, str_amount}
use sweetops.Inventory.Lifecycle.{is_pending, settle_lines, release_order_reservation, add_to}
use sweetops.Inventory.Commands.{require_key, require_reason, optional_text}
use sweetops.Payment.Model.{Ledger, set_order, audit, payment_idempotent_replay}
use sweetops.Payment.Summary.{IsSound, recompute_order_summary, order_refundable}
use sweetops.Payment.Collect.{Race}
use sweetops.Payment.Refund.{
  RefundRequest, RefundReceipt, find_refund_by_key, resolve_refund_replay, allocation_refundable,
  load_allocation, insert_refund, refund_under_lock, require_refund_amount, run_refund,
  refund_allocation, insert_allocation, allocations_of, distribute, add_shares,
  create_issue_refunds, IssueRefund, Shares, given,
}
use sweetops.Payment.Refund.Outcome.{IsReconciled, IsFair, refund_allocation-IsReconciled}
use sweetops.Payment.Refund.Replay.{replay_of, refund_allocation-refund_allocation}
use sweetops.Payment.Refund.Issued.{
  IsReturned, create_issue_refunds-IsReturned, distribute-order_refundable,
}
use sweetops.Issue as Issues
use sweetops.Issue.{
  Desk, OrderIssue, other, opened, full_refund, partial_refund, IssueResolveRequest, IssueResponse,
  optional_amount, load_order,
}
use sweetops.Issue.Resolve.{
  load_issue, resolve_resolve_replay, is_refunding, cancel_order, give_money, decide, resolve_open,
  resolve_under_lock, resolve_issue, require_approved,
}
use sweetops.Issue.Outcome as Ends
use sweetops.Issue.Outcome.{IsResolved, resolve_issue-IsResolved}
use sweetops.Issue.Replay.{resolve_issue-resolve_issue}
use sweetops.Tests.Pantry.{pantry, pantry-IsConsistent}
use sweetops.Tests.Till.{waffles, waffles-IsSound}

-- Order 7, of which 50.00 were collected by allocation 2 of settlement 1.
abbrev books : Ledger
books = record {
  orders = set_order 7 waffles (λ id. none);
  tables = λ t. some 1;
  settlements =
      record {
        id = 1;
        store_id = 1;
        table_id = some 4;
        cashier_user_id = 9;
        payment_method = codes "CASH";
        gross_amount = pos 5000;
        note = none;
        terminal_reference = none;
        idempotency_key_hash = codes "k0";
        request_hash = codes "r0";
      }
      ∷ [];
  allocations = record { id = 2; settlement_id = 1; order_id = 7; amount = pos 5000 } ∷ [];
  refunds = [];
  audits = [];
  next_id = 20;
}

books-IsReconciled : IsReconciled books
books-IsReconciled = record {
  balanced = record {
    paid_is_allocated = λ id o e. elim (Bool-cases (7 == id)) [
      | inl same ↦
          let e' : some waffles ≡ some o = rw same at e in
          let q : pos 5000 ≡ o.paid_amount = cc in rw (same, sym q) (omega int_laws)
      | inr apart ↦ let e' : none ≡ some o = rw apart at e in absurd (cc)
    ];
    sound = λ id o e. elim (Bool-cases (7 == id)) [
      | inl same ↦
          let e' : some waffles ≡ some o = rw same at e in subst IsSound (cc) waffles-IsSound
      | inr apart ↦ let e' : none ≡ some o = rw apart at e in absurd (cc)
    ];
  };
  refunded_is_summed = λ id o e. elim (Bool-cases (7 == id)) [
    | inl same ↦
        let e' : some waffles ≡ some o = rw same at e in
        let q : pos 0 ≡ o.refunded_amount = cc in rw (sym q) (omega int_laws)
    | inr apart ↦ let e' : none ≡ some o = rw apart at e in absurd (cc)
  ];
  linked = record {
    distinct = (tt, tt);
    linked = λ k. grind int_laws;
    covered = (omega int_laws, tt);
  };
}

abbrev quiet : Race
quiet = record { before_lock = λ led. led; before_insert = λ led. led }

abbrev plain : Text → Text
plain text = text

-- 20.00 of them go back.
abbrev request : RefundRequest
request = record {
  store_id = 1;
  user_id = 9;
  idempotency_key = some (codes "back-1");
  allocation_id = 2;
  amount = record { coefficient = pos 2000; places = 2 };
  reason = some (codes "cold");
}

program : Unit {0}
unfolding refund_allocation run_refund refund_under_lock insert_refund require_refund_amount
    load_allocation allocation_refundable resolve_refund_replay find_refund_by_key require_key
    require_reason canonical q2 recompute_order_summary ◌+ℤ◌ ◌-ℤ◌
program = tt

abbrev read_ok {ℓ} : {A : Type ℓ} → A → Result A → A
read_ok d (ok a) = a
read_ok d _ = d

abbrev nothing : RefundReceipt × Ledger
nothing = (record { refund_id = 0; amount = pos 0; replayed = true }, books)

abbrev refunded : RefundReceipt × Ledger
refunded = read_ok nothing (refund_allocation plain quiet request books)

run_refunded : refund_allocation plain quiet request books ≡ ok refunded
unfolding program
run_refunded = refl

quiet-IsFair : IsFair quiet 2
quiet-IsFair = record {
  lock_reconciled = λ led b. b;
  insert_reconciled = λ led b. b;
  lock_kept = λ led a e. e;
  insert_kept = λ led a e. e;
  row_kept = λ led a e. refl;
  refunds_kept = λ led. refl;
}

refund_allocation-IsReconciled_example : IsReconciled refunded.1
refund_allocation-IsReconciled_example =
    refund_allocation-IsReconciled plain quiet request books refunded.1 refunded.0 quiet-IsFair
      books-IsReconciled run_refunded

refund_allocation-refund_allocation_example :
    (allocation : ℕ) × (refund_allocation plain quiet request refunded.1
      ≡ ok (replay_of refunded.0, audit payment_idempotent_replay allocation 9 refunded.1))
refund_allocation-refund_allocation_example =
    refund_allocation-refund_allocation plain quiet quiet request books refunded.1 refunded.0
      run_refunded

abbrev twenty : IssueRefund
twenty = record {
  store_id = 1;
  user_id = 9;
  order_id = 7;
  issue_id = 40;
  total_amount = pos 2000;
  reason = codes "cold";
  base_key = codes "k9";
}

-- What the distribution opens.
sharing : Unit {0}
unfolding program create_issue_refunds add_shares distribute allocations_of insert_allocation
    str_nat str_amount order_refundable
sharing = tt

abbrev unmoved : ℕ × Ledger
unmoved = (0, books)

abbrev shared : ℕ × Ledger
shared = read_ok unmoved (create_issue_refunds plain twenty waffles books)

run_shared : create_issue_refunds plain twenty waffles books ≡ ok shared
unfolding sharing
run_shared = refl

create_issue_refunds-IsReturned_example : IsReturned twenty waffles books shared.1
create_issue_refunds-IsReturned_example =
    create_issue_refunds-IsReturned plain twenty waffles books books-IsReconciled refl shared.0
      shared.1 run_shared

within : pos 2000 ≤ℤ order_refundable waffles
unfolding sharing
within = omega arith

distribute-order_refundable_example :
    (shares : Shares) × (left : ℤ) × (distribute books
        (allocations_of books.allocations 7)
        (pos 2000)
      ≡ ok (shares, left))
    × (left ≡ pos 0)
    × (given shares ≡ pos 2000)
distribute-order_refundable_example =
    distribute-order_refundable plain twenty waffles books books-IsReconciled refl ((_, refl), tt)
      (omega arith) within

abbrev complaint : OrderIssue
complaint = record {
  id = 40;
  store_id = 1;
  order_id = 7;
  issue_type = other;
  status = opened;
  resolution_type = none;
  requested_refund_amount = none;
  approved_refund_amount = none;
  refund_id = none;
  reason = codes "cold";
  note = none;
  created_by_user_id = 9;
  resolved_by_user_id = none;
  created_idempotency_key_hash = codes "c1";
  created_request_hash = codes "c2";
  resolved_idempotency_key_hash = none;
  resolved_request_hash = none;
}

abbrev desk : Desk
desk = record {
  ledger = books;
  inventory = pantry;
  events = [];
  issues = complaint ∷ [];
  audits = [];
  next_id = 41;
}

abbrev calm : Issues.Race
calm = record { before_insert = λ d. d; before_issue_lock = λ d. d; before_order_lock = λ d. d }

abbrev verdict : IssueResolveRequest
verdict = record {
  store_id = 1;
  user_id = 9;
  can_refund = true;
  idempotency_key = some (codes "v1");
  issue_id = 40;
  resolution_type = full_refund;
  approved_refund_amount = none;
  reason = some (codes "cold");
  note = none;
  now = 700;
}

-- What the resolution opens.
resolving : Unit {0}
unfolding sharing resolve_issue resolve_under_lock resolve_open resolve_resolve_replay decide
    require_approved give_money cancel_order load_issue load_order optional_amount optional_text
    release_order_reservation settle_lines is_pending add_to
resolving = tt

abbrev unanswered : IssueResponse × Desk
unanswered = (record { issue = complaint; replayed = true }, desk)

abbrev settled : IssueResponse × Desk
settled = read_ok unanswered (resolve_issue plain calm verdict desk)

run_settled : resolve_issue plain calm verdict desk ≡ ok settled
unfolding resolving
run_settled = refl

settled_fresh : settled.0.replayed ≡ false
unfolding resolving
settled_fresh = refl

calm-IsFair : Ends.IsFair calm 40
calm-IsFair = record {
  issue_reconciled = λ d b. b;
  issue_consistent = λ d c. c;
  order_reconciled = λ d b. b;
  order_consistent = λ d c. c;
  row_kept = λ d. refl;
}

-- Of the 50.00, the desk gives 20.00 back and leaves the order as it is.
abbrev some_back : IssueResolveRequest
some_back = record verdict {
  resolution_type = partial_refund;
  approved_refund_amount = some (record { coefficient = pos 2000; places = 2 });
}

abbrev eased : IssueResponse × Desk
eased = read_ok unanswered (resolve_issue plain calm some_back desk)

run_eased : resolve_issue plain calm some_back desk ≡ ok eased
unfolding resolving
run_eased = refl

eased_fresh : eased.0.replayed ≡ false
unfolding resolving
eased_fresh = refl

resolve_issue-IsResolved_example :
    (key : Text) × (reason : Text) × (require_key some_back.idempotency_key ≡ ok key)
    × (require_reason some_back.reason ≡ ok reason)
    × (is_refunding some_back.resolution_type ≡ true → some_back.can_refund ≡ true)
    × IsResolved plain some_back key reason desk desk eased.0 eased.1
resolve_issue-IsResolved_example =
    resolve_issue-IsResolved plain calm some_back desk eased.1 eased.0 calm-IsFair
      books-IsReconciled pantry-IsConsistent run_eased eased_fresh

resolve_issue-resolve_issue_example :
    resolve_issue plain calm verdict settled.1
    ≡ ok (record { issue = settled.0.issue; replayed = true }, settled.1)
resolve_issue-resolve_issue_example =
    resolve_issue-resolve_issue plain calm calm verdict desk settled.1 settled.0 calm-IsFair
      books-IsReconciled pantry-IsConsistent run_settled settled_fresh
