-- ===== src/Issue/Cancel.antt =====
-- What `_cancel_order` of apps/api/app/services/order_issue_service.py does to the order, its money and
-- its stock.
use mathlib.Core.Path.{subst}
use sweetops.Base.{
  ℕ, ◌≡◌, refl, true, some, arith, ◌==◌, ok, inl, inr, Bool-cases, sym, ◌∙◌, ok_injective,
}
use sweetops.Inventory.Books.{IsConsistent}
use sweetops.Inventory.Lifecycle.Orders.{release_order_reservation-OrderSettled}
use sweetops.Inventory.Manual.Effect.{Keeps}
use sweetops.Payment.Model.{
  Order, OrderStatus, new, in_prep, ready, delivered, cancelled, Ledger, set_order,
}
use sweetops.Payment.Summary.{IsSound, is_cancelled}
use sweetops.Payment.Refund.Outcome.{IsReconciled}
use sweetops.Kitchen.Stock.{IsIdle}
use sweetops.Issue.{Desk, IssueResolveRequest}
use sweetops.Issue.Resolve.{close_order, cancel_order}

-- The money of an order row.
pub record SameMoney (r r' : Order) : Type 0 where
  pub total_kept : r'.total_amount ≡ r.total_amount
  pub paid_kept : r'.paid_amount ≡ r.paid_amount
  pub refunded_kept : r'.refunded_amount ≡ r.refunded_amount

SameMoney-IsSound : (r r' : Order) → SameMoney r r' → IsSound r → IsSound r'
SameMoney-IsSound r r' m s = record {
  refunded_nonneg = rw m.refunded_kept s.refunded_nonneg;
  refunded_covered = rw (m.refunded_kept, m.paid_kept) s.refunded_covered;
  not_overpaid = rw (m.refunded_kept, m.paid_kept, m.total_kept) s.not_overpaid;
}

-- Only the money of the orders matters for the books.
pub IsReconciled-of_money :
    (led led' : Ledger)
    → led'.allocations ≡ led.allocations
    → led'.refunds ≡ led.refunds
    → ((k : ℕ) (r' : Order)
        → led'.orders k ≡ some r'
        → (r : Order) × (led.orders k ≡ some r) × SameMoney r r')
    → IsReconciled led
    → IsReconciled led'
IsReconciled-of_money led led' e f rows b = record {
  balanced = record {
    paid_is_allocated = λ id o here.
        let (r, e', m) = rows id o here in
        rw (e, m.paid_kept) (b.balanced.paid_is_allocated id r e');
    sound = λ id o here.
        let (r, e', m) = rows id o here in SameMoney-IsSound r o m (b.balanced.sound id r e');
  };
  refunded_is_summed = λ id o here.
      let (r, e', m) = rows id o here in rw (f, m.refunded_kept) (b.refunded_is_summed id r e');
  linked = rw (e, f) b.linked;
}

-- What a cancellation leaves: the order cancelled and otherwise as it was, no money moved, and what
-- it still held of the stock released.
pub record IsCancelled (order : ℕ) (o : Order) (desk desk' : Desk) : Type 0 where
  pub reconciled : IsReconciled desk'.ledger
  pub stock : Keeps desk.inventory desk'.inventory
  pub idle : IsIdle o.store_id order desk'.inventory
  pub orders_written :
      (k : ℕ)
      → desk'.ledger.orders k
        ≡ set_order order (record o { status = cancelled }) desk.ledger.orders k
  pub refunds_kept : desk'.ledger.refunds ≡ desk.ledger.refunds
  pub issues_kept : desk'.issues ≡ desk.issues

cancelled_status : (s : OrderStatus) → is_cancelled s ≡ true → s ≡ cancelled
cancelled_status new h = cc
cancelled_status in_prep h = cc
cancelled_status ready h = cc
cancelled_status delivered h = cc
cancelled_status cancelled h = refl

module _ (req : IssueResolveRequest) (order : ℕ) (o : Order) (desk : Desk)
    (here : desk.ledger.orders order ≡ some o) where
  close-written :
      (k : ℕ)
      → (close_order req order o desk).ledger.orders k
        ≡ set_order order (record o { status = cancelled }) desk.ledger.orders k
  close-written k = elim (Bool-cases (is_cancelled o.status)) [
    | inr running ↦ rw running refl
    | inl already ↦
        let s = cancelled_status o.status already in
        let same : some o ≡ some (record o { status = cancelled }) =
          λ i. some (record o { status = s i }) in
        elim (Bool-cases (order == k)) [
          | inl mine ↦
              let i : order ≡ k = ground arith in
              let here' : desk.ledger.orders k ≡ some o =
                subst (λ x. desk.ledger.orders x ≡ some o) i here in
              rw (already, mine) (here' ∙ same)
          | inr others ↦ rw (already, others) refl
        ]
  ]

  close-rows :
      (k : ℕ) (r' : Order)
      → (close_order req order o desk).ledger.orders k ≡ some r'
      → (r : Order) × (desk.ledger.orders k ≡ some r) × SameMoney r r'
  close-rows k r' e = elim (Bool-cases (order == k)) [
    | inl mine ↦
        let i : order ≡ k = ground arith in
        let e' : some (record o { status = cancelled }) ≡ some r' =
          rw mine at (sym (close-written k) ∙ e) in
        (
          o,
          subst (λ x. desk.ledger.orders x ≡ some o) i here,
          record { total_kept = cc; paid_kept = cc; refunded_kept = cc },
        )
    | inr others ↦ (
      r',
      rw others at (sym (close-written k) ∙ e),
      record { total_kept = refl; paid_kept = refl; refunded_kept = refl },
    )
  ]

  close-kept :
      ((close_order req order o desk).ledger.refunds ≡ desk.ledger.refunds)
      × ((close_order req order o desk).ledger.allocations ≡ desk.ledger.allocations)
      × ((close_order req order o desk).inventory ≡ desk.inventory)
      × ((close_order req order o desk).issues ≡ desk.issues)
  close-kept = elim (Bool-cases (is_cancelled o.status)) [
    | inl already ↦ rw already (refl, refl, refl, refl)
    | inr running ↦ rw running (refl, refl, refl, refl)
  ]

pub cancel_order-IsCancelled :
    (req : IssueResolveRequest) (order : ℕ) (o : Order) (desk desk' : Desk)
    → desk.ledger.orders order ≡ some o
    → IsReconciled desk.ledger
    → IsConsistent desk.inventory
    → cancel_order req order desk ≡ ok desk'
    → IsCancelled order o desk desk'
unfolding cancel_order
cancel_order-IsCancelled req order o desk desk' here b c h =
    let (r, e, s) =
      release_order_reservation-OrderSettled (some req.user_id) o.store_id order desk.inventory c in
    let desk1 = record desk { inventory = r.1 } in
    let same : close_order req order o desk1 ≡ desk' =
      ok_injective (rw (here, e, cancel_order) at h) in
    let (refunds, allocations, stock, issues) = close-kept req order o desk1 here in
    subst (IsCancelled order o desk) same (record {
      reconciled =
          IsReconciled-of_money desk.ledger (close_order req order o desk1).ledger allocations
            refunds (close-rows req order o desk1 here) b;
      stock = rw stock (record { consistent = s.consistent; explained = s.explained });
      idle = rw stock s.settled;
      orders_written = close-written req order o desk1 here;
      refunds_kept = refunds;
      issues_kept = issues;
    })
