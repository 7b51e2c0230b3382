-- ===== src/Issue/Create.antt =====
-- create_issue of apps/api/app/services/order_issue_service.py.
use sweetops.Base.{
  ℕ, suc, Bool, true, false, ◌&&◌, Option, none, some, [], ◌∷◌, ◌==◌, if◌then◌else◌, find, Result,
  ok, err, http, raise_if, idempotency_mismatch, invalid_amount, requested_over_refundable, ◌>>=◌,
  ◌>>◌,
}
use sweetops.Int.{ℤ, pos, ltb_ℤ}
use sweetops.Text.{Text, text_eq}
use sweetops.Quantity.{Decimal}
use sweetops.Digest.{codes, text, number, canonical}
use sweetops.Inventory.Commands.{require_key, require_reason, optional_text}
use sweetops.Payment.Summary.{order_refundable}
use sweetops.Issue.{
  opened, OrderIssue, order_issue_created, Desk, IssueCreateRequest, IssueResponse, Race,
  audit_issue, issue_type_text, amount_text, note_text, optional_amount, load_order,
}

-- The requested amount; it is not negative.
abbrev is_negative : Option ℤ → Bool
is_negative none = false
is_negative (some amount) = ltb_ℤ amount (pos 0)

unfoldable pub require_requested : Option Decimal → Result (Option ℤ)
require_requested amount = do
  raise_if (is_negative (optional_amount amount)) 422 invalid_amount
  ok (optional_amount amount)

-- `_find_by_create_key`
abbrev pub has_create_key : ℕ → Text → OrderIssue → Bool
has_create_key store key i = i.store_id == store && text_eq i.created_idempotency_key_hash key

unfoldable pub find_by_create_key : Desk → ℕ → Text → Option OrderIssue
find_by_create_key desk store key = find (has_create_key store key) desk.issues

-- `_resolve_create_replay`
unfoldable pub resolve_create_replay : OrderIssue → Text → Desk → Result (IssueResponse × Desk)
resolve_create_replay existing request_hash desk =
    if text_eq existing.created_request_hash request_hash
    then ok (record { issue = existing; replayed = true }, desk)
    else err (http 409 idempotency_mismatch)

abbrev is_over : Option ℤ → ℤ → Bool
is_over none refundable = false
is_over (some amount) refundable = ltb_ℤ refundable amount

abbrev pub new_issue : IssueCreateRequest → Text → Option ℤ → Text → Text → ℕ → OrderIssue
new_issue req reason requested key_hash request_hash id = record {
  id = id;
  store_id = req.store_id;
  order_id = req.order_id;
  issue_type = req.issue_type;
  status = opened;
  resolution_type = none;
  requested_refund_amount = requested;
  approved_refund_amount = none;
  refund_id = none;
  reason = reason;
  note = optional_text req.note;
  created_by_user_id = req.user_id;
  resolved_by_user_id = none;
  created_idempotency_key_hash = key_hash;
  created_request_hash = request_hash;
  resolved_idempotency_key_hash = none;
  resolved_request_hash = none;
}

-- The insert and the commit; a second issue with the key is an IntegrityError, resolved to the
-- first.
unfoldable pub insert_issue :
    IssueCreateRequest → Text → Option ℤ → Text → Text → Desk → Result (IssueResponse × Desk)
insert_issue req reason requested key_hash request_hash desk =
    elim (find_by_create_key desk req.store_id key_hash) [
      | some winner ↦ resolve_create_replay winner request_hash desk
      | none ↦
          let issue = new_issue req reason requested key_hash request_hash desk.next_id in
          ok (
            record { issue = issue; replayed = false },
            audit_issue order_issue_created issue.id req.user_id
                (record desk { issues = issue ∷ desk.issues; next_id = suc desk.next_id }),
          )
    ]

module _ (sha256 : Text → Text) where
  abbrev pub create_hash : IssueCreateRequest → Text → Option ℤ → Text
  unfolding issue_type_text amount_text note_text
  create_hash req reason requested = sha256 (
      canonical (
        (codes "cmd", text (codes "issue_create"))
        ∷ (codes "order_id", number req.order_id)
        ∷ (codes "issue_type", text (issue_type_text req.issue_type))
        ∷ (codes "requested", text (amount_text requested))
        ∷ (codes "reason", text reason)
        ∷ (codes "note", text (note_text (optional_text req.note)))
        ∷ []))

  -- `create_issue`
  unfoldable pub create_issue : Race → IssueCreateRequest → Desk → Result (IssueResponse × Desk)
  create_issue race req desk = do
    key ← require_key req.idempotency_key
    reason ← require_reason req.reason
    requested ← require_requested req.requested_refund_amount
    let request_hash = create_hash req reason requested
    elim (find_by_create_key desk req.store_id (sha256 key)) [
      | some existing ↦ resolve_create_replay existing request_hash desk
      | none ↦ do
        order ← load_order desk.ledger req.store_id req.order_id
        raise_if (is_over requested (order_refundable order)) 409 requested_over_refundable
        insert_issue req reason requested (sha256 key) request_hash (race.before_insert desk)
    ]
