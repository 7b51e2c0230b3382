-- ===== src/Issue/Resolve.antt =====
-- resolve_issue of apps/api/app/services/order_issue_service.py, with the cancellation of its order.
use sweetops.Base.{
  ℕ, Bool, true, false, not, ◌&&◌, Option, none, some, [], ◌∷◌, ◌==◌, if◌then◌else◌, find, map,
  Result, ok, err, http, raise_if, idempotency_mismatch, not_found, internal_error, forbidden,
  approved_over_refundable, nothing_refundable, amount_required, cancel_blocked_paid,
  already_resolved, ◌>>=◌, ◌>>◌,
}
use sweetops.Int.{ℤ, pos, leb_ℤ, ltb_ℤ}
use sweetops.Text.{Text, text_eq}
use sweetops.Digest.{codes, text, number, str_nat, canonical}
use sweetops.Inventory.Lifecycle.{release_order_reservation}
use sweetops.Inventory.Commands.{require_key, require_reason, optional_text}
use sweetops.Payment.Model.{Order, cancelled, set_order}
use sweetops.Payment.Summary.{net_paid, order_refundable, is_cancelled}
use sweetops.Payment.Refund.{create_issue_refunds, IssueRefund}
use sweetops.Kitchen.{OrderStatusEvent}
use sweetops.Issue.{
  IssueStatus, opened, resolved, voided, Resolution, no_refund, full_refund, partial_refund,
  cancel_only, OrderIssue, order_issue_resolved, Desk, IssueResolveRequest, IssueResponse, Race,
  audit_issue, resolution_text, amount_text, note_text, optional_amount, load_order,
}

abbrev pub is_open : IssueStatus → Bool
is_open opened = true
is_open resolved = false
is_open voided = false

abbrev pub is_issue : ℕ → OrderIssue → Bool
is_issue id i = i.id == id

unfoldable pub load_issue : Desk → ℕ → ℕ → Result OrderIssue
load_issue desk store id = elim (find (is_issue id) desk.issues) [
  | none ↦ err (http 404 not_found)
  | some i ↦ do raise_if (not (i.store_id == store)) 404 not_found; ok i
]

abbrev pub same_hash : Option Text → Text → Bool
same_hash none hash = false
same_hash (some h) hash = text_eq h hash

-- `_resolve_resolve_replay`
unfoldable pub resolve_resolve_replay :
    OrderIssue → Text → Text → Desk → Result (IssueResponse × Desk)
resolve_resolve_replay issue key_hash request_hash desk =
    if same_hash issue.resolved_idempotency_key_hash key_hash
    then if same_hash issue.resolved_request_hash request_hash
      then ok (record { issue = issue; replayed = true }, desk)
      else err (http 409 idempotency_mismatch)
    else err (http 409 already_resolved)

-- `REFUNDING_RESOLUTIONS`
abbrev pub is_refunding : Resolution → Bool
is_refunding full_refund = true
is_refunding partial_refund = true
is_refunding no_refund = false
is_refunding cancel_only = false

-- What a resolution has decided: the approved amount, the first refund, and the tables.
pub record Decision : Type 0 where
  pub approved : ℤ
  pub refund_id : Option ℕ
  pub desk : Desk

abbrev pub cancelled_event : IssueResolveRequest → ℕ → Order → OrderStatusEvent
cancelled_event req order o = record {
  order_id = order;
  status_from = some o.status;
  status_to = cancelled;
  actor_id = some (str_nat req.user_id);
  created_at = req.now;
}

-- The end of `_cancel_order`.
abbrev pub close_order : IssueResolveRequest → ℕ → Order → Desk → Desk
close_order req order o desk = if is_cancelled o.status then desk else record desk {
  ledger = record (desk.ledger) {
    orders = set_order order (record o { status = cancelled }) desk.ledger.orders;
  };
  events = cancelled_event req order o ∷ desk.events;
}

-- `_cancel_order`; the order's row is the one that the transaction has locked.
unfoldable pub cancel_order : IssueResolveRequest → ℕ → Desk → Result Desk
cancel_order req order desk = elim (desk.ledger.orders order) [
  | none ↦ err (http 500 internal_error)
  | some o ↦ do
    r ← release_order_reservation (some req.user_id) o.store_id order desk.inventory
    ok (close_order req order o (record desk { inventory = r.1 }))
]

-- `approved_in is None or approved_in <= ZERO`
unfoldable pub require_approved : Option ℤ → Result ℤ
require_approved none = err (http 422 amount_required)
require_approved (some amount) = do raise_if (leb_ℤ amount (pos 0)) 422 amount_required; ok amount

module _ (sha256 : Text → Text) where
  abbrev pub issue_refund : IssueResolveRequest → Text → Text → Order → OrderIssue → ℤ → IssueRefund
  issue_refund req key reason o issue amount = record {
    store_id = o.store_id;
    user_id = req.user_id;
    order_id = issue.order_id;
    issue_id = issue.id;
    total_amount = amount;
    reason = reason;
    base_key = key;
  }

  -- The refunds of an approved amount.
  unfoldable pub give_money :
      IssueResolveRequest → Text → Text → Order → OrderIssue → ℤ → Desk → Result Decision
  give_money req key reason o issue amount desk = do
    r ← create_issue_refunds sha256 (issue_refund req key reason o issue amount) o desk.ledger
    ok (record { approved = amount; refund_id = some r.0; desk = record desk { ledger = r.1 } })

  -- The branches on the resolution, once the issue and the order are locked.
  unfoldable pub decide :
      Resolution → IssueResolveRequest → Text → Text → Order → OrderIssue → Desk → Result Decision
  decide no_refund req key reason o issue desk =
      ok (record { approved = pos 0; refund_id = none; desk = desk })
  decide cancel_only req key reason o issue desk = do
    raise_if (ltb_ℤ (pos 0) (net_paid o)) 409 cancel_blocked_paid
    desk' ← cancel_order req issue.order_id desk
    ok (record { approved = pos 0; refund_id = none; desk = desk' })
  decide full_refund req key reason o issue desk = do
    raise_if (leb_ℤ (order_refundable o) (pos 0)) 409 nothing_refundable
    d ← give_money req key reason o issue (order_refundable o) desk
    desk' ← cancel_order req issue.order_id d.desk
    ok (record d { desk = desk' })
  decide partial_refund req key reason o issue desk = do
    raise_if (leb_ℤ (order_refundable o) (pos 0)) 409 nothing_refundable
    amount ← require_approved (optional_amount req.approved_refund_amount)
    raise_if (ltb_ℤ (order_refundable o) amount) 409 approved_over_refundable
    give_money req key reason o issue amount desk

  abbrev pub resolve_hash : IssueResolveRequest → Text → Text
  unfolding resolution_text amount_text note_text
  resolve_hash req reason = sha256 (
      canonical (
        (codes "cmd", text (codes "issue_resolve"))
        ∷ (codes "issue_id", number req.issue_id)
        ∷ (codes "resolution_type", text (resolution_text req.resolution_type))
        ∷ (codes "approved", text (amount_text (optional_amount req.approved_refund_amount)))
        ∷ (codes "reason", text reason)
        ∷ (codes "note", text (note_text (optional_text req.note)))
        ∷ []))

-- The issue's row, resolved.
abbrev pub resolved_issue : IssueResolveRequest → Text → Text → Decision → OrderIssue → OrderIssue
resolved_issue req key_hash request_hash d issue = record issue {
  status = resolved;
  resolution_type = some req.resolution_type;
  approved_refund_amount = some d.approved;
  refund_id = d.refund_id;
  resolved_by_user_id = some req.user_id;
  resolved_idempotency_key_hash = some key_hash;
  resolved_request_hash = some request_hash;
}

abbrev pub replace_issue : OrderIssue → OrderIssue → OrderIssue
replace_issue row i = if is_issue row.id i then row else i

-- The update of the row, and the commit.
abbrev pub write_resolution : IssueResolveRequest → OrderIssue → Desk → Desk
write_resolution req row desk =
    audit_issue order_issue_resolved row.id req.user_id
      (record desk { issues = map (replace_issue row) desk.issues })

module _ (sha256 : Text → Text) where
  -- What is done with an open issue whose row is locked: the order is locked, and the issue decided.
  unfoldable pub resolve_open :
      IssueResolveRequest → Text → Text → OrderIssue → Desk → Result (IssueResponse × Desk)
  resolve_open req key reason issue desk = do
    o ← load_order desk.ledger req.store_id issue.order_id
    d ← decide sha256 req.resolution_type req key reason o issue desk
    let row = resolved_issue req (sha256 key) (resolve_hash sha256 req reason) d issue
    ok (record { issue = row; replayed = false }, write_resolution req row d.desk)

  -- The check of the row once it is locked.
  unfoldable pub resolve_under_lock :
      Race → IssueResolveRequest → Text → Text → Desk → Result (IssueResponse × Desk)
  resolve_under_lock race req key reason locked = do
    issue ← load_issue locked req.store_id req.issue_id
    if is_open issue.status
        then resolve_open req key reason issue (race.before_order_lock locked)
        else resolve_resolve_replay issue (sha256 key) (resolve_hash sha256 req reason) locked

  -- `resolve_issue`
  unfoldable pub resolve_issue : Race → IssueResolveRequest → Desk → Result (IssueResponse × Desk)
  resolve_issue race req desk = do
    key ← require_key req.idempotency_key
    reason ← require_reason req.reason
    issue ← load_issue desk req.store_id req.issue_id
    if is_open issue.status
        then (do
          raise_if (is_refunding req.resolution_type && not req.can_refund) 403 forbidden
          resolve_under_lock race req key reason (race.before_issue_lock desk))
        else resolve_resolve_replay issue (sha256 key) (resolve_hash sha256 req reason) desk
