-- ===== src/Payment/Refund/Outcome.antt =====
-- The ledger under refund_allocation of apps/api/app/services/payment_service.py, beside other
-- transactions.
use mathlib.Core.Path.{subst}
use sweetops.Base.{
  ℕ, ◌≡◌, refl, true, not, ◌||◌, some, List, [], ◌∷◌, arith, ◌==◌, if◌then◌else◌, find, ok,
  raise_if, >>=-eq-ok, inl, inr, Bool-cases, Option-cases, sym, ◌∙◌, not_found, refund_over_balance,
}
use sweetops.Int.{ℤ, pos, ◌+ℤ◌, ◌-ℤ◌, ◌≤ℤ◌, ◌≈ℤ◌, leb_ℤ, ltb_ℤ, int_laws}
use sweetops.Text.{Text}
use sweetops.Inventory.Commands.{require_key, require_reason}
use sweetops.Payment.Model.{
  Order, PaymentAllocation, PaymentRefund, Ledger, set_order, refunded_of, refunded_from, allocated,
}
use sweetops.Payment.Summary.{IsSound, recompute_order_summary}
use sweetops.Payment.Collect.{Race}
use sweetops.Payment.Collect.Charge.{IsBalanced}
use sweetops.Payment.Refund.{
  RefundRequest, RefundReceipt, RefundCommand, find_refund_by_key, resolve_refund_replay,
  allocation_refundable, is_allocation, load_allocation, give_back, refund_row, insert_refund,
  refund_under_lock, require_refund_amount, refund_command, run_refund, refund_allocation,
}
use sweetops.Payment.Refund.Linked.{AreLinked, refund-AreLinked, refunded-le-allocated}

-- The ledger's books: paid amounts are the allocations, refunded amounts the refunds, no order is
-- overpaid, and nothing goes back beyond the allocation that it came with.
pub record IsReconciled (led : Ledger) : Type 0 where
  pub balanced : IsBalanced led
  pub refunded_is_summed :
      (id : ℕ) (o : Order)
      → led.orders id ≡ some o
      → o.refunded_amount ≈ℤ refunded_of led.refunds id
  pub linked : AreLinked led.allocations led.refunds

-- What is asked of the other transactions: they keep the books reconciled, lose no allocation, and
-- none writes the order, or gives back of the allocation, while this command holds the order's lock.
pub record IsFair (race : Race) (id : ℕ) : Type 0 where
  pub lock_reconciled : (led : Ledger) → IsReconciled led → IsReconciled (race.before_lock led)
  pub insert_reconciled : (led : Ledger) → IsReconciled led → IsReconciled (race.before_insert led)
  pub lock_kept :
      (led : Ledger) (a : PaymentAllocation)
      → find (is_allocation id) led.allocations ≡ some a
      → find (is_allocation id) (race.before_lock led).allocations ≡ some a
  pub insert_kept :
      (led : Ledger) (a : PaymentAllocation)
      → find (is_allocation id) led.allocations ≡ some a
      → find (is_allocation id) (race.before_insert led).allocations ≡ some a
  pub row_kept :
      (led : Ledger) (a : PaymentAllocation)
      → find (is_allocation id) led.allocations ≡ some a
      → (race.before_insert led).orders a.order_id ≡ led.orders a.order_id
  pub refunds_kept :
      (led : Ledger)
      → refunded_from (race.before_insert led).refunds id ≡ refunded_from led.refunds id

-- Rows of orders, allocations and refunds alone matter.
pub IsReconciled-of_rows :
    (led led' : Ledger)
    → led'.orders ≡ led.orders
    → led'.allocations ≡ led.allocations
    → led'.refunds ≡ led.refunds
    → IsReconciled led
    → IsReconciled led'
IsReconciled-of_rows led led' e f g b = record {
  balanced = record {
    paid_is_allocated = λ id o here. rw f (b.balanced.paid_is_allocated id o (rw e at here));
    sound = λ id o here. b.balanced.sound id o (rw e at here);
  };
  refunded_is_summed = λ id o here. rw g (b.refunded_is_summed id o (rw e at here));
  linked = rw (f, g) b.linked;
}

replay-IsReconciled :
    (row : PaymentRefund) (request : Text) (user : ℕ) (led : Ledger) (r : RefundReceipt × Ledger)
    → IsReconciled led
    → resolve_refund_replay row request user led ≡ ok r
    → IsReconciled r.1
unfolding resolve_refund_replay
replay-IsReconciled row request user led r b h =
    IsReconciled-of_rows led r.1 (ground arith) (ground arith) (ground arith) b

pub found_id :
    (id : ℕ) (as' : List PaymentAllocation) (a : PaymentAllocation)
    → find (is_allocation id) as' ≡ some a
    → a.id ≡ id
found_id id [] a e = absurd (cc)
found_id id (b ∷ as') a e = ground (arith, found_id id as' a)

-- The row of an order from which money went back, over refunds that add up.
pub give_back-IsSound :
    (o : Order) (amount : ℤ) (collected back : ℤ)
    → IsSound o
    → pos 0 ≤ℤ amount
    → o.paid_amount ≈ℤ collected
    → back ≈ℤ o.refunded_amount +ℤ amount
    → back ≤ℤ collected
    → IsSound (give_back o amount)
unfolding recompute_order_summary
give_back-IsSound o amount collected back s p paid sum le = record {
  refunded_nonneg = omega (int_laws, s.refunded_nonneg);
  refunded_covered = omega int_laws;
  not_overpaid = omega (int_laws, s.not_overpaid);
}

-- One order's refunds are written, and its row with them.
module _ (id : ℕ) (o : Order) (amount : ℤ) (led : Ledger) (rs : List PaymentRefund) where
  abbrev pub returned : Ledger
  returned = record led { orders = set_order id (give_back o amount) led.orders; refunds = rs }

  pub returned-IsReconciled :
      IsReconciled led
      → led.orders id ≡ some o
      → pos 0 ≤ℤ amount
      → AreLinked led.allocations rs
      → ((k : ℕ)
          → refunded_of rs k ≈ℤ refunded_of led.refunds k +ℤ (if id == k then amount else pos 0))
      → IsReconciled returned
  unfolding recompute_order_summary
  returned-IsReconciled b here p l sums = record {
    balanced = record {
      paid_is_allocated = λ k r e. elim (Bool-cases (id == k)) [
        | inl same ↦
            let e' : some (give_back o amount) ≡ some r = rw same at e in
            let q : o.paid_amount ≡ r.paid_amount = cc in
            let i : id ≡ k = ground arith in
            rw (sym q, sym i) (b.balanced.paid_is_allocated id o here)
        | inr other ↦ b.balanced.paid_is_allocated k r (rw other at e)
      ];
      sound = λ k r e. elim (Bool-cases (id == k)) [
        | inl same ↦
            let e' : some (give_back o amount) ≡ some r = rw same at e in
            let at_id : (id == id) ≡ true = ground arith in
            let s = rw at_id at (sums id) in
            subst IsSound (cc) (
              give_back-IsSound o amount (allocated led.allocations id) (refunded_of rs id)
                (b.balanced.sound id o here) p (b.balanced.paid_is_allocated id o here)
                (omega (int_laws, s, b.refunded_is_summed id o here))
                (refunded-le-allocated led.allocations rs id l))
        | inr other ↦ b.balanced.sound k r (rw other at e)
      ];
    };
    refunded_is_summed = λ k r e. elim (Bool-cases (id == k)) [
      | inl same ↦
          let e' : some (give_back o amount) ≡ some r = rw same at e in
          let q : o.refunded_amount +ℤ amount ≡ r.refunded_amount = cc in
          let i : id ≡ k = ground arith in
          let s = rw same at (sums k) in
          let before = rw i at (b.refunded_is_summed id o here) in
          rw (sym q) (omega (int_laws, s, before))
      | inr other ↦
          let s = rw other at (sums k) in
          omega (int_laws, s, b.refunded_is_summed k r (rw other at e))
    ];
    linked = l;
  }

insert_refund-IsReconciled :
    (c : RefundCommand) (a : PaymentAllocation) (o : Order) (led : Ledger)
    (r : RefundReceipt × Ledger)
    → IsReconciled led
    → find (is_allocation a.id) led.allocations ≡ some a
    → led.orders a.order_id ≡ some o
    → pos 0 ≤ℤ c.amount
    → c.amount ≤ℤ a.amount -ℤ refunded_from led.refunds a.id
    → insert_refund c a o led ≡ ok r
    → IsReconciled r.1
unfolding insert_refund
insert_refund-IsReconciled c a o led r b found here p fits h =
    elim (Option-cases (find_refund_by_key led c.store_id c.key_hash)) [
      | inr (winner, e) ↦
          replay-IsReconciled winner c.request_hash c.user_id led r b (rw (e, insert_refund) at h)
      | inl e ↦
          let row = refund_row c a led.next_id in
          let l = refund-AreLinked led.allocations led.refunds row a b.linked found refl fits in
          let after = returned a.order_id o c.amount led (row ∷ led.refunds) in
          let b' =
            returned-IsReconciled a.order_id o c.amount led (row ∷ led.refunds) b here p l
              (λ k. omega int_laws) in
          let h' = rw (e, insert_refund) at h in
          IsReconciled-of_rows after r.1 (ground arith) (ground arith) (ground arith) b'
    ]

module _ (race : Race) (c : RefundCommand) (fair : IsFair race c.allocation_id)
    (p : pos 0 ≤ℤ c.amount) where
  lock-IsReconciled :
      (a : PaymentAllocation) (locked : Ledger) (r : RefundReceipt × Ledger)
      → IsReconciled locked
      → find (is_allocation c.allocation_id) locked.allocations ≡ some a
      → refund_under_lock race c a locked ≡ ok r
      → IsReconciled r.1
  unfolding refund_under_lock allocation_refundable
  lock-IsReconciled a locked r b found h = elim (Option-cases (locked.orders a.order_id)) [
    | inl e ↦ absurd (ground arith)
    | inr (o, here) ↦
        let (_, _, h1) =
          >>=-eq-ok (raise_if (not (o.store_id == c.store_id)) 404 not_found) _
            (rw (here, refund_under_lock) at h) in
        elim (Option-cases (find_refund_by_key locked c.store_id c.key_hash)) [
          | inr (existing, e) ↦
              replay-IsReconciled existing c.request_hash c.user_id locked r b (rw e at h1)
          | inl e ↦
              let others = race.before_insert locked in
              let id : a.id ≡ c.allocation_id =
                found_id c.allocation_id locked.allocations a found in
              let refundable = a.amount -ℤ refunded_from locked.refunds a.id in
              let (_, enough, h2) =
                >>=-eq-ok
                  (raise_if (leb_ℤ refundable (pos 0) || ltb_ℤ refundable c.amount) 409
                    refund_over_balance)
                  (λ _. insert_refund c a o others) (rw e at h1) in
              let same = fair.refunds_kept locked in
              let kept : refunded_from others.refunds a.id ≡ refunded_from locked.refunds a.id =
                subst (λ x. refunded_from others.refunds x ≡ refunded_from locked.refunds x)
                  (sym id) same in
              insert_refund-IsReconciled c a o others r (fair.insert_reconciled locked b)
                (subst (λ x. find (is_allocation x) others.allocations ≡ some a) (sym id)
                  (fair.insert_kept locked a found))
                (fair.row_kept locked a found ∙ here) p (rw kept (ground arith)) h2
        ]
  ]

  run_refund-IsReconciled :
      (led : Ledger) (r : RefundReceipt × Ledger)
      → IsReconciled led
      → run_refund race c led ≡ ok r
      → IsReconciled r.1
  unfolding run_refund load_allocation
  run_refund-IsReconciled led r b h =
      elim (Option-cases (find_refund_by_key led c.store_id c.key_hash)) [
        | inr (existing, e) ↦
            replay-IsReconciled existing c.request_hash c.user_id led r b (rw (e, run_refund) at h)
        | inl e ↦
            let (a, loaded, h1) =
              >>=-eq-ok (load_allocation led c.store_id c.allocation_id) _
                (rw (e, run_refund) at h) in
            let found : find (is_allocation c.allocation_id) led.allocations ≡ some a =
              ground arith in
            lock-IsReconciled a (race.before_lock led) r (fair.lock_reconciled led b)
              (fair.lock_kept led a found) h1
      ]

-- A refund at the till that succeeds, beside any fair transactions, leaves the books reconciled: no
-- allocation is refunded beyond its amount, every order's refunded amount is the sum of its refunds,
-- its paid amount the sum of its allocations, and no more went back than was collected.
pub refund_allocation-IsReconciled :
    (sha256 : Text → Text) (race : Race) (req : RefundRequest) (led led' : Ledger)
    (res : RefundReceipt)
    → IsFair race req.allocation_id
    → IsReconciled led
    → refund_allocation sha256 race req led ≡ ok (res, led')
    → IsReconciled led'
unfolding refund_allocation require_refund_amount
refund_allocation-IsReconciled sha256 race req led led' res fair b h =
    let (key, _, h1) = >>=-eq-ok (require_key req.idempotency_key) _ h in
    let (reason, _, h2) = >>=-eq-ok (require_reason req.reason) _ h1 in
    let (amount, e, h3) = >>=-eq-ok (require_refund_amount req.amount) _ h2 in
    run_refund-IsReconciled race (refund_command sha256 req key reason amount) fair (ground arith)
      led (res, led') b h3
