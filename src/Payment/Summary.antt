-- ===== src/Payment/Summary.antt =====
-- The order summary of apps/api/app/services/payment_service.py: net_paid, outstanding, is_payable,
-- recompute_order_summary and order_refundable.
use sweetops.Base.{◌≡◌, ◌↔◌, refl, Bool, true, false, ◌&&◌, arith, if◌then◌else◌, not}
use sweetops.Int.{ℤ, pos, ◌-ℤ◌, ◌≤ℤ◌, ◌<ℤ◌, ltb_ℤ, leb_ℤ, -ℤ_parts}
use sweetops.Payment.Model.{
  Order, OrderStatus, cancelled, PaymentStatus, unpaid, partially_paid, paid, RefundStatus,
  not_refunded, partially_refunded, refunded,
}

-- `net_paid(order)`
abbrev pub net_paid : Order → ℤ
net_paid order = order.paid_amount -ℤ order.refunded_amount

abbrev pub at_least_zero : ℤ → ℤ
at_least_zero rem = if ltb_ℤ (pos 0) rem then rem else pos 0

-- `outstanding(order)`
unfoldable pub outstanding : Order → ℤ
outstanding order = at_least_zero (order.total_amount -ℤ net_paid order)

-- `order_refundable(order)`
unfoldable pub order_refundable : Order → ℤ
order_refundable order = at_least_zero (net_paid order)

abbrev pub is_cancelled : OrderStatus → Bool
is_cancelled cancelled = true
is_cancelled _ = false

-- `is_payable(order)`
unfoldable pub is_payable : Order → Bool
unfolding outstanding
is_payable order = not (is_cancelled order.status) && ltb_ℤ (pos 0) (outstanding order)

abbrev payment_status_of : ℤ → ℤ → PaymentStatus
payment_status_of net total =
    if leb_ℤ net (pos 0) then unpaid else if leb_ℤ total net then paid else partially_paid

abbrev refund_status_of : ℤ → ℤ → RefundStatus
refund_status_of back collected =
    if leb_ℤ back (pos 0)
    then not_refunded
    else if leb_ℤ collected back
    then refunded
    else partially_refunded

-- `recompute_order_summary(order)`
unfoldable pub recompute_order_summary : Order → Order
recompute_order_summary order = record order {
  payment_status = payment_status_of (net_paid order) order.total_amount;
  refund_status = refund_status_of order.refunded_amount order.paid_amount;
}

-- The constraints on an order's money, and that it was never overpaid.
pub record IsSound (order : Order) : Type 0 where
  pub refunded_nonneg : pos 0 ≤ℤ order.refunded_amount
  pub refunded_covered : order.refunded_amount ≤ℤ order.paid_amount
  pub not_overpaid : net_paid order ≤ℤ order.total_amount

-- A status is reached exactly at its amounts.
unpaid_iff : (net total : ℤ) → (payment_status_of net total ≡ unpaid) ↔ (net ≤ℤ pos 0)
unpaid_iff net total = (λ k. ground arith, λ z. ground arith)

paid_iff :
    (net total : ℤ)
    → (payment_status_of net total ≡ paid)
      ↔ ((pos 0 <ℤ net) × (at_least_zero (total -ℤ net) ≡ pos 0))
paid_iff net total = (
  λ k. (ground arith, ground (arith, -ℤ_parts total net)),
  λ (p, z). ground (arith, -ℤ_parts total net),
)

partially_paid_iff :
    (net total : ℤ)
    → (payment_status_of net total ≡ partially_paid)
      ↔ ((pos 0 <ℤ net) × (pos 0 <ℤ at_least_zero (total -ℤ net)))
partially_paid_iff net total = (
  λ k. (ground arith, ground (arith, -ℤ_parts total net)),
  λ (p, z). ground (arith, -ℤ_parts total net),
)

not_refunded_iff :
    (back collected : ℤ)
    → pos 0 ≤ℤ back
    → (refund_status_of back collected ≡ not_refunded) ↔ (back ≡ pos 0)
not_refunded_iff back collected h = (λ k. ground arith, λ z. ground arith)

refunded_iff :
    (back collected : ℤ)
    → (refund_status_of back collected ≡ refunded)
      ↔ ((pos 0 <ℤ back) × (collected -ℤ back ≤ℤ pos 0))
refunded_iff back collected = (
  λ k. (ground arith, ground (arith, -ℤ_parts collected back)),
  λ (p, z). ground (arith, -ℤ_parts collected back),
)

partially_refunded_iff :
    (back collected : ℤ)
    → (refund_status_of back collected ≡ partially_refunded)
      ↔ ((pos 0 <ℤ back) × (pos 0 <ℤ collected -ℤ back))
partially_refunded_iff back collected = (
  λ k. (ground arith, ground (arith, -ℤ_parts collected back)),
  λ (p, z). ground (arith, -ℤ_parts collected back),
)

-- What the two flags of an order say of its amounts.
pub record IsSummary (order after : Order) : Type 0 where
  pub unpaid_when : (after.payment_status ≡ unpaid) ↔ (net_paid order ≤ℤ pos 0)
  pub partially_paid_when :
      (after.payment_status ≡ partially_paid)
      ↔ ((pos 0 <ℤ net_paid order) × (pos 0 <ℤ outstanding order))
  pub paid_when :
      (after.payment_status ≡ paid) ↔ ((pos 0 <ℤ net_paid order) × (outstanding order ≡ pos 0))
  pub not_refunded_when : (after.refund_status ≡ not_refunded) ↔ (order.refunded_amount ≡ pos 0)
  pub partially_refunded_when :
      (after.refund_status ≡ partially_refunded)
      ↔ ((pos 0 <ℤ order.refunded_amount) × (pos 0 <ℤ net_paid order))
  pub refunded_when :
      (after.refund_status ≡ refunded)
      ↔ ((pos 0 <ℤ order.refunded_amount) × (net_paid order ≤ℤ pos 0))
  pub rest_kept :
      record after { payment_status = order.payment_status; refund_status = order.refund_status }
      ≡ order

-- On an order whose money is sound, the summary sets the two flags and nothing else: UNPAID exactly
-- when no money was kept, PARTIALLY_PAID when some was and some is outstanding, PAID when some was
-- and nothing is; NOT_REFUNDED exactly when no money went back, PARTIALLY_REFUNDED when some did and
-- some was kept, REFUNDED when some did and none was kept.
pub recompute_order_summary_lem :
    (order : Order) → IsSound order → IsSummary order (recompute_order_summary order)
unfolding recompute_order_summary outstanding
recompute_order_summary_lem order h = record {
  unpaid_when = unpaid_iff (net_paid order) order.total_amount;
  partially_paid_when = partially_paid_iff (net_paid order) order.total_amount;
  paid_when = paid_iff (net_paid order) order.total_amount;
  not_refunded_when = not_refunded_iff order.refunded_amount order.paid_amount h.refunded_nonneg;
  partially_refunded_when = partially_refunded_iff order.refunded_amount order.paid_amount;
  refunded_when = refunded_iff order.refunded_amount order.paid_amount;
  rest_kept = refl;
}
