-- ===== src/Issue/Replay.antt =====
-- The replay of resolve_issue of apps/api/app/services/order_issue_service.py.
use mathlib.Core.Path.{subst}
use sweetops.Base.{
  ℕ, ◌≡◌, refl, true, false, some, List, [], ◌∷◌, map, arith, ◌==◌, find, ok, sym, ◌∙◌, ap,
}
use sweetops.Text.{Text, text_eq_refl}
use sweetops.Inventory.Books.{IsConsistent}
use sweetops.Inventory.Commands.{require_key, require_reason}
use sweetops.Payment.Refund.Outcome.{IsReconciled}
use sweetops.Issue.{Desk, IssueResolveRequest, IssueResponse, OrderIssue, Race}
use sweetops.Issue.Resolve.{
  is_open, is_issue, load_issue, same_hash, resolve_resolve_replay, resolve_hash, resolved_issue,
  replace_issue, write_resolution, resolve_issue,
}
use sweetops.Issue.Outcome.{IsFair, IsResolved, resolve_issue-IsResolved}

-- The response's issue is in the tables, closed, with the request's key and payload.
record IsRecorded (sha256 : Text → Text) (req : IssueResolveRequest) (key reason : Text)
    (res : IssueResponse) (desk : Desk) : Type 0 where
  found : find (is_issue req.issue_id) desk.issues ≡ some res.issue
  own : res.issue.store_id ≡ req.store_id
  closed : is_open res.issue.status ≡ false
  same_key : same_hash res.issue.resolved_idempotency_key_hash (sha256 key) ≡ true
  same_request : same_hash res.issue.resolved_request_hash (resolve_hash sha256 req reason) ≡ true

replaced_found :
    (id : ℕ) (issue row : OrderIssue) (is' : List OrderIssue)
    → row.id ≡ issue.id
    → find (is_issue id) is' ≡ some issue
    → find (is_issue id) (map (replace_issue row) is') ≡ some row
replaced_found id issue row [] e h = absurd (cc)
replaced_found id issue row (i ∷ is') e h = ground (arith, replaced_found id issue row is' e)

resolved-IsRecorded :
    (sha256 : Text → Text) (req : IssueResolveRequest) (key reason : Text)
    (locked waiting desk' : Desk) (res : IssueResponse)
    → find (is_issue req.issue_id) waiting.issues ≡ find (is_issue req.issue_id) locked.issues
    → IsResolved sha256 req key reason locked waiting res desk'
    → IsRecorded sha256 req key reason res desk'
resolved-IsRecorded sha256 req key reason locked waiting desk' res kept x =
    let row = resolved_issue req (sha256 key) (resolve_hash sha256 req reason) x.decision x.issue in
    let here : find (is_issue req.issue_id) x.decision.desk.issues ≡ some x.issue =
      rw x.decided.issues_kept (kept ∙ x.issue_here) in
    let found = replaced_found req.issue_id x.issue row x.decision.desk.issues refl here in
    let recorded : IsRecorded sha256 req key reason (record { issue = row; replayed = false })
        (write_resolution req row x.decision.desk) =
      record {
        found = found;
        own = x.own_issue;
        closed = refl;
        same_key = text_eq_refl (sha256 key);
        same_request = text_eq_refl (resolve_hash sha256 req reason);
      } in
    let written : desk' ≡ write_resolution req row x.decision.desk =
      x.written
      ∙ ap (λ (r : IssueResponse). write_resolution req r.issue x.decision.desk) x.answer in
    subst (IsRecorded sha256 req key reason res) (sym written) (
      subst (λ r. IsRecorded sha256 req key reason r (write_resolution req row x.decision.desk))
        (sym x.answer) recorded)

module _ (sha256 : Text → Text) (race later : Race) (req : IssueResolveRequest) (desk desk' : Desk)
    (res : IssueResponse) where
  checked-replay :
      (key reason : Text)
      → require_key req.idempotency_key ≡ ok key
      → require_reason req.reason ≡ ok reason
      → IsRecorded sha256 req key reason res desk'
      → resolve_issue sha256 later req desk'
        ≡ ok (record { issue = res.issue; replayed = true }, desk')
  unfolding resolve_issue resolve_resolve_replay load_issue
  checked-replay key reason ek er x =
      let self : (res.issue.store_id == req.store_id) ≡ true = ground (arith, x.own) in
      rw (ek, er)
        (rw (x.found, load_issue)
          (rw (self) (rw (x.closed) (rw (x.same_key) (rw (x.same_request) refl)))))

  -- Once an issue has been resolved, the same request, with any other transactions in between its own
  -- steps, answers the issue as it was resolved, marked as a replay, and writes nothing: no second
  -- refund is created.
  pub resolve_issue-resolve_issue :
      IsFair race req.issue_id
      → IsReconciled desk.ledger
      → IsConsistent desk.inventory
      → resolve_issue sha256 race req desk ≡ ok (res, desk')
      → res.replayed ≡ false
      → resolve_issue sha256 later req desk'
        ≡ ok (record { issue = res.issue; replayed = true }, desk')
  resolve_issue-resolve_issue fair b c h fresh =
      let (key, reason, ek, er, allowed, x) =
        resolve_issue-IsResolved sha256 race req desk desk' res fair b c h fresh in
      let locked = race.before_issue_lock desk in
      checked-replay key reason ek er (
        resolved-IsRecorded sha256 req key reason locked (race.before_order_lock locked) desk' res
          (fair.row_kept locked) x)
