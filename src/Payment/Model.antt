-- ===== src/Payment/Model.antt =====
-- The rows that the payment service reads and writes: orders, and the append-only ledger of
-- settlements, allocations and refunds. Money is in whole hundredths (`Numeric(12, 2)`).
use sweetops.Base.{ℕ, Option, some, List, [], ◌∷◌, ◌==◌, if◌then◌else◌}
use sweetops.Int.{ℤ, pos, ◌+ℤ◌}
use sweetops.Text.{Text}

pub data OrderStatus : Type 0 where
  new in_prep ready delivered cancelled : OrderStatus

pub data PaymentStatus : Type 0 where
  unpaid partially_paid paid : PaymentStatus

pub data RefundStatus : Type 0 where
  not_refunded partially_refunded refunded : RefundStatus

pub record Order : Type 0 where
  pub store_id : ℕ
  pub table_id : Option ℕ
  pub total_amount : ℤ
  pub status : OrderStatus
  pub payment_status : PaymentStatus
  pub refund_status : RefundStatus
  pub paid_amount : ℤ
  pub refunded_amount : ℤ

pub record PaymentSettlement : Type 0 where
  pub id : ℕ
  pub store_id : ℕ
  pub table_id : Option ℕ
  pub cashier_user_id : ℕ
  pub payment_method : Text
  pub gross_amount : ℤ
  pub note : Option Text
  pub terminal_reference : Option Text
  pub idempotency_key_hash : Text
  pub request_hash : Text

pub record PaymentAllocation : Type 0 where
  pub id : ℕ
  pub settlement_id : ℕ
  pub order_id : ℕ
  pub amount : ℤ

pub record PaymentRefund : Type 0 where
  pub id : ℕ
  pub store_id : ℕ
  pub settlement_id : ℕ
  pub allocation_id : ℕ
  pub order_id : ℕ
  pub amount : ℤ
  pub reason : Text
  pub refunded_by_user_id : ℕ
  pub idempotency_key_hash : Text
  pub request_hash : Text
  pub order_issue_id : Option ℕ

pub data PaymentAction : Type 0 where
  payment_collected payment_refunded payment_idempotent_replay : PaymentAction

pub record PaymentAudit : Type 0 where
  pub action : PaymentAction
  pub entity_id : ℕ
  pub actor_id : ℕ

-- The order and table rows by id, the ledger rows newest first. `tables` gives a table's store;
-- `next_id` stands for the id sequences.
pub record Ledger : Type 0 where
  pub orders : ℕ → Option Order
  pub tables : ℕ → Option ℕ
  pub settlements : List PaymentSettlement
  pub allocations : List PaymentAllocation
  pub refunds : List PaymentRefund
  pub audits : List PaymentAudit
  pub next_id : ℕ

abbrev pub set_order : ℕ → Order → (ℕ → Option Order) → ℕ → Option Order
set_order id order orders k = if id == k then some order else orders k

abbrev pub audit : PaymentAction → ℕ → ℕ → Ledger → Ledger
audit action entity actor led = record led {
  audits = record { action = action; entity_id = entity; actor_id = actor } ∷ led.audits;
}

-- The sums of the ledger for one order, and for one allocation.
abbrev pub allocated : List PaymentAllocation → ℕ → ℤ
allocated [] order = pos 0
allocated (a ∷ as') order = (if a.order_id == order then a.amount else pos 0) +ℤ allocated as' order

abbrev pub refunded_of : List PaymentRefund → ℕ → ℤ
refunded_of [] order = pos 0
refunded_of (r ∷ rs) order =
    (if r.order_id == order then r.amount else pos 0) +ℤ refunded_of rs order

abbrev pub refunded_from : List PaymentRefund → ℕ → ℤ
refunded_from [] allocation = pos 0
refunded_from (r ∷ rs) allocation =
    (if r.allocation_id == allocation then r.amount else pos 0) +ℤ refunded_from rs allocation
