-- ===== src/Issue.antt =====
-- Order issues, of apps/api/app/services/order_issue_service.py: create_issue, by which staff record a
-- problem with an order, and resolve_issue, which decides it by giving money back, cancelling the
-- order, both or neither. The staff session gives `store_id`, `user_id` and whether the staff member
-- has payments:refund. The listings and the display fields of the responses are left out.
pub mod Create
pub mod Cancel
pub mod Decide
pub mod Outcome
pub mod Replay
pub mod Resolve
use sweetops.Base.{
  ℕ, suc, Bool, true, false, not, ◌&&◌, Option, none, some, List, [], ◌∷◌, ◌==◌, if◌then◌else◌,
  find, map, Result, ok, err, http, raise_if, idempotency_mismatch, invalid_amount, not_found,
  internal_error, forbidden, requested_over_refundable, approved_over_refundable,
  nothing_refundable, amount_required, cancel_blocked_paid, already_resolved, ◌>>=◌, ◌>>◌,
}
use sweetops.Int.{ℤ, pos, leb_ℤ, ltb_ℤ}
use sweetops.Text.{Text, text_eq}
use sweetops.Quantity.{Decimal, q2}
use sweetops.Digest.{codes, text, number, str_nat, str_amount, canonical}
use sweetops.Inventory.Model.{Inventory}
use sweetops.Inventory.Lifecycle.{release_order_reservation}
use sweetops.Inventory.Commands.{require_key, require_reason, optional_text}
use sweetops.Payment.Model.{Order, cancelled, Ledger, set_order}
use sweetops.Payment.Summary.{net_paid, order_refundable, is_cancelled}
use sweetops.Payment.Refund.{create_issue_refunds, IssueRefund}
use sweetops.Kitchen.{OrderStatusEvent}

pub data IssueType : Type 0 where
  customer_cancelled wrong_item missing_item quality_problem duplicate_order staff_error : IssueType
  other : IssueType

pub data IssueStatus : Type 0 where
  opened resolved voided : IssueStatus

pub data Resolution : Type 0 where
  no_refund full_refund partial_refund cancel_only : Resolution

-- `resolved_at`, which nothing reads, is left out.
pub record OrderIssue : Type 0 where
  pub id : ℕ
  pub store_id : ℕ
  pub order_id : ℕ
  pub issue_type : IssueType
  pub status : IssueStatus
  pub resolution_type : Option Resolution
  pub requested_refund_amount : Option ℤ
  pub approved_refund_amount : Option ℤ
  pub refund_id : Option ℕ
  pub reason : Text
  pub note : Option Text
  pub created_by_user_id : ℕ
  pub resolved_by_user_id : Option ℕ
  pub created_idempotency_key_hash : Text
  pub created_request_hash : Text
  pub resolved_idempotency_key_hash : Option Text
  pub resolved_request_hash : Option Text

pub data IssueAction : Type 0 where
  order_issue_created order_issue_resolved : IssueAction

pub record IssueAudit : Type 0 where
  pub action : IssueAction
  pub entity_id : ℕ
  pub actor_id : ℕ

-- The rows that the service reads and writes; the orders are the ledger's.
pub record Desk : Type 0 where
  pub ledger : Ledger
  pub inventory : Inventory
  pub events : List OrderStatusEvent
  pub issues : List OrderIssue
  pub audits : List IssueAudit
  pub next_id : ℕ

-- `IssueCreateRequest`, with the session, the path's order and the Idempotency-Key header.
pub record IssueCreateRequest : Type 0 where
  pub store_id : ℕ
  pub user_id : ℕ
  pub idempotency_key : Option Text
  pub order_id : ℕ
  pub issue_type : IssueType
  pub requested_refund_amount : Option Decimal
  pub reason : Option Text
  pub note : Option Text

-- `IssueResolveRequest`, likewise; `now` is the time of the status event.
pub record IssueResolveRequest : Type 0 where
  pub store_id : ℕ
  pub user_id : ℕ
  pub can_refund : Bool
  pub idempotency_key : Option Text
  pub issue_id : ℕ
  pub resolution_type : Resolution
  pub approved_refund_amount : Option Decimal
  pub reason : Option Text
  pub note : Option Text
  pub now : ℕ

-- The issue of the response, and whether it is a replay.
pub record IssueResponse : Type 0 where
  pub issue : OrderIssue
  pub replayed : Bool

-- What other transactions commit before a new issue's insert, and while a resolution waits for the
-- issue's row and for the order's.
pub record Race : Type 0 where
  pub before_insert : Desk → Desk
  pub before_issue_lock : Desk → Desk
  pub before_order_lock : Desk → Desk

abbrev pub audit_issue : IssueAction → ℕ → ℕ → Desk → Desk
audit_issue action entity actor desk = record desk {
  audits = record { action = action; entity_id = entity; actor_id = actor } ∷ desk.audits;
}

unfoldable pub issue_type_text : IssueType → Text
issue_type_text customer_cancelled = codes "CUSTOMER_CANCELLED"
issue_type_text wrong_item = codes "WRONG_ITEM"
issue_type_text missing_item = codes "MISSING_ITEM"
issue_type_text quality_problem = codes "QUALITY_PROBLEM"
issue_type_text duplicate_order = codes "DUPLICATE_ORDER"
issue_type_text staff_error = codes "STAFF_ERROR"
issue_type_text other = codes "OTHER"

unfoldable pub resolution_text : Resolution → Text
resolution_text no_refund = codes "NO_REFUND"
resolution_text full_refund = codes "FULL_REFUND"
resolution_text partial_refund = codes "PARTIAL_REFUND"
resolution_text cancel_only = codes "CANCEL_ONLY"

unfoldable pub amount_text : Option ℤ → Text
amount_text none = codes "none"
amount_text (some amount) = str_amount 2 amount

unfoldable pub note_text : Option Text → Text
note_text none = []
note_text (some note) = note

unfoldable pub optional_amount : Option Decimal → Option ℤ
unfolding q2
optional_amount none = none
optional_amount (some amount) = some (q2 amount)

-- `db.get(Order, order_id)`, of the staff's store.
unfoldable pub load_order : Ledger → ℕ → ℕ → Result Order
load_order led store id = elim (led.orders id) [
  | none ↦ err (http 404 not_found)
  | some o ↦ do raise_if (not (o.store_id == store)) 404 not_found; ok o
]
