-- ===== src/Payment/Refund/Replay.antt =====
-- The replay of refund_allocation of apps/api/app/services/payment_service.py, beside other
-- transactions.
use sweetops.Base.{
  ℕ, ◌≡◌, refl, true, not, ◌||◌, some, arith, ok, raise_if, >>=-eq-ok, inl, inr, Bool-cases,
  Option-cases, ◌==◌, not_found, refund_over_balance,
}
use sweetops.Int.{ℤ, pos, leb_ℤ, ltb_ℤ}
use sweetops.Text.{Text, text_eq, text_eq_refl}
use sweetops.Inventory.Commands.{require_key, require_reason}
use sweetops.Payment.Model.{
  Order, PaymentAllocation, PaymentRefund, Ledger, audit, payment_idempotent_replay,
}
use sweetops.Payment.Collect.{Race}
use sweetops.Payment.Refund.{
  RefundRequest, RefundReceipt, RefundCommand, find_refund_by_key, resolve_refund_replay,
  allocation_refundable, load_allocation, refund_row, insert_refund, refund_under_lock,
  require_refund_amount, refund_command, run_refund, refund_allocation,
}

-- A refund with the receipt's number and amount, the key and the payload is in the ledger.
record IsRecorded (c : RefundCommand) (r : RefundReceipt × Ledger) : Type 0 where
  row : PaymentRefund
  found : find_refund_by_key r.1 c.store_id c.key_hash ≡ some row
  same : text_eq row.request_hash c.request_hash ≡ true
  id_kept : row.id ≡ r.0.refund_id
  amount_kept : row.amount ≡ r.0.amount

resolve-IsRecorded :
    (c : RefundCommand) (led : Ledger) (row : PaymentRefund) (r : RefundReceipt × Ledger)
    → find_refund_by_key led c.store_id c.key_hash ≡ some row
    → resolve_refund_replay row c.request_hash c.user_id led ≡ ok r
    → IsRecorded c r
unfolding find_refund_by_key resolve_refund_replay
resolve-IsRecorded c led row r e h = elim (Bool-cases (text_eq row.request_hash c.request_hash)) [
  | inl same ↦ record {
    row = row;
    found = ground arith;
    same = same;
    id_kept = ground arith;
    amount_kept = ground arith;
  }
  | inr other ↦ absurd (ground arith)
]

insert-IsRecorded :
    (c : RefundCommand) (a : PaymentAllocation) (o : Order) (led : Ledger)
    (r : RefundReceipt × Ledger)
    → insert_refund c a o led ≡ ok r
    → IsRecorded c r
unfolding insert_refund find_refund_by_key
insert-IsRecorded c a o led r h =
    elim (Option-cases (find_refund_by_key led c.store_id c.key_hash)) [
      | inr (winner, e) ↦ resolve-IsRecorded c led winner r e (ground arith)
      | inl e ↦
          let h' = rw (e, insert_refund) at h in
          record {
            row = refund_row c a led.next_id;
            found = ground (arith, text_eq_refl c.key_hash);
            same = text_eq_refl c.request_hash;
            id_kept = ground arith;
            amount_kept = ground arith;
          }
    ]

lock-IsRecorded :
    (race : Race) (c : RefundCommand) (a : PaymentAllocation) (locked : Ledger)
    (r : RefundReceipt × Ledger)
    → refund_under_lock race c a locked ≡ ok r
    → IsRecorded c r
unfolding refund_under_lock
lock-IsRecorded race c a locked r h = elim (Option-cases (locked.orders a.order_id)) [
  | inl e ↦ absurd (ground arith)
  | inr (o, here) ↦
      let (_, _, h1) =
        >>=-eq-ok (raise_if (not (o.store_id == c.store_id)) 404 not_found) _
          (rw (here, refund_under_lock) at h) in
      elim (Option-cases (find_refund_by_key locked c.store_id c.key_hash)) [
        | inr (existing, e) ↦ resolve-IsRecorded c locked existing r e (rw e at h1)
        | inl e ↦
            let refundable = allocation_refundable locked a in
            let (_, _, h2) =
              >>=-eq-ok
                (raise_if (leb_ℤ refundable (pos 0) || ltb_ℤ refundable c.amount) 409
                  refund_over_balance)
                (λ _. insert_refund c a o (race.before_insert locked)) (rw e at h1) in
            insert-IsRecorded c a o (race.before_insert locked) r h2
      ]
]

run-IsRecorded :
    (race : Race) (c : RefundCommand) (led : Ledger) (r : RefundReceipt × Ledger)
    → run_refund race c led ≡ ok r
    → IsRecorded c r
unfolding run_refund
run-IsRecorded race c led r h = elim (Option-cases (find_refund_by_key led c.store_id c.key_hash)) [
  | inr (existing, e) ↦ resolve-IsRecorded c led existing r e (rw (e, run_refund) at h)
  | inl e ↦
      let (a, _, h1) =
        >>=-eq-ok (load_allocation led c.store_id c.allocation_id) _ (rw (e, run_refund) at h) in
      lock-IsRecorded race c a (race.before_lock led) r h1
]

-- The receipt of a replay.
abbrev pub replay_of : RefundReceipt → RefundReceipt
replay_of r = record r { replayed = true }

run_refund-replay :
    (later : Race) (c : RefundCommand) (r : RefundReceipt × Ledger) (recorded : IsRecorded c r)
    → run_refund later c r.1
      ≡ ok (replay_of r.0, audit payment_idempotent_replay recorded.row.allocation_id c.user_id r.1)
unfolding run_refund resolve_refund_replay
run_refund-replay later c r recorded =
    rw (recorded.found, run_refund)
      (rw (recorded.same, recorded.id_kept, recorded.amount_kept) refl)

module _ (sha256 : Text → Text) (race later : Race) (req : RefundRequest) (led led' : Ledger)
    (res : RefundReceipt) where
  checked-replay :
      (key reason : Text) (amount : ℤ)
      → require_key req.idempotency_key ≡ ok key
      → require_reason req.reason ≡ ok reason
      → require_refund_amount req.amount ≡ ok amount
      → run_refund race (refund_command sha256 req key reason amount) led ≡ ok (res, led')
      → (allocation : ℕ) × (refund_allocation sha256 later req led'
          ≡ ok (replay_of res, audit payment_idempotent_replay allocation req.user_id led'))
  unfolding refund_allocation
  checked-replay key reason amount ek er ea h =
      let c = refund_command sha256 req key reason amount in
      let recorded = run-IsRecorded race c led (res, led') h in
      (recorded.row.allocation_id, rw (ek, er, ea) (run_refund-replay later c (res, led') recorded))

  -- Once a refund at the till has succeeded, the same request, with any other transactions in
  -- between its own steps, answers the first refund's receipt, marked as a replay; it gives no
  -- money back and writes nothing but the audit row of a replay.
  pub refund_allocation-refund_allocation :
      refund_allocation sha256 race req led ≡ ok (res, led')
      → (allocation : ℕ) × (refund_allocation sha256 later req led'
          ≡ ok (replay_of res, audit payment_idempotent_replay allocation req.user_id led'))
  unfolding refund_allocation
  refund_allocation-refund_allocation h =
      let (key, ek, h1) = >>=-eq-ok (require_key req.idempotency_key) _ h in
      let (reason, er, h2) = >>=-eq-ok (require_reason req.reason) _ h1 in
      let (amount, ea, h3) = >>=-eq-ok (require_refund_amount req.amount) _ h2 in
      checked-replay key reason amount ek er ea h3
