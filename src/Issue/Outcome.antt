-- ===== src/Issue/Outcome.antt =====
-- How resolve_issue of apps/api/app/services/order_issue_service.py ends when it succeeds, and what the
-- same request does afterwards.
use sweetops.Base.{
  ℕ, ◌≡◌, true, false, not, ◌&&◌, some, arith, find, ok, raise_if, >>=-eq-ok, ok_injective, inl,
  inr, Bool-cases, sym, ◌∙◌, ap, forbidden,
}
use sweetops.Text.{Text}
use sweetops.Inventory.Books.{IsConsistent}
use sweetops.Inventory.Commands.{require_key, require_reason}
use sweetops.Payment.Model.{Order}
use sweetops.Payment.Refund.Outcome.{IsReconciled}
use sweetops.Issue.{
  Desk, IssueResolveRequest, IssueResponse, OrderIssue, Race, load_order, optional_amount,
}
use sweetops.Issue.Resolve.{
  Decision, is_open, is_issue, load_issue, resolve_resolve_replay, is_refunding, decide,
  resolve_hash, resolved_issue, write_resolution, resolve_open, resolve_under_lock, resolve_issue,
}
use sweetops.Issue.Decide.{IsDecided, decide-IsDecided}

-- What is asked of the other transactions: they keep the books reconciled and the stock consistent,
-- and none writes the issue while this command holds its lock.
pub record IsFair (race : Race) (id : ℕ) : Type 0 where
  pub issue_reconciled :
      (desk : Desk) → IsReconciled desk.ledger → IsReconciled (race.before_issue_lock desk).ledger
  pub issue_consistent :
      (desk : Desk)
      → IsConsistent desk.inventory
      → IsConsistent (race.before_issue_lock desk).inventory
  pub order_reconciled :
      (desk : Desk) → IsReconciled desk.ledger → IsReconciled (race.before_order_lock desk).ledger
  pub order_consistent :
      (desk : Desk)
      → IsConsistent desk.inventory
      → IsConsistent (race.before_order_lock desk).inventory
  pub row_kept :
      (desk : Desk)
      → find (is_issue id) (race.before_order_lock desk).issues ≡ find (is_issue id) desk.issues

-- A resolution: `waiting` are the tables once both rows are locked.
pub record IsResolved (sha256 : Text → Text) (req : IssueResolveRequest) (key reason : Text)
    (locked waiting : Desk) (res : IssueResponse) (desk' : Desk) : Type 0 where
  pub issue : OrderIssue
  pub issue_here : find (is_issue req.issue_id) locked.issues ≡ some issue
  pub was_open : is_open issue.status ≡ true
  pub own_issue : issue.store_id ≡ req.store_id
  pub order : Order
  pub order_here : waiting.ledger.orders issue.order_id ≡ some order
  pub own_order : order.store_id ≡ req.store_id
  pub decision : Decision
  pub decided :
      IsDecided req.resolution_type
        (optional_amount req.approved_refund_amount)
        issue.order_id
        order
        waiting
        decision
  pub answer : res ≡ record {
    issue = resolved_issue req (sha256 key) (resolve_hash sha256 req reason) decision issue;
    replayed = false;
  }
  pub written : desk' ≡ write_resolution req res.issue decision.desk

pub loaded_issue :
    (desk : Desk) (store id : ℕ) (issue : OrderIssue)
    → load_issue desk store id ≡ ok issue
    → (find (is_issue id) desk.issues ≡ some issue) × (issue.store_id ≡ store)
unfolding load_issue
loaded_issue desk store id issue h = (ground arith, ground arith)

loaded_order :
    (desk : Desk) (store id : ℕ) (o : Order)
    → load_order desk.ledger store id ≡ ok o
    → (desk.ledger.orders id ≡ some o) × (o.store_id ≡ store)
unfolding load_order
loaded_order desk store id o h = (ground arith, ground arith)

pub replay-replayed :
    (issue : OrderIssue) (key request : Text) (desk : Desk) (r : IssueResponse × Desk)
    → resolve_resolve_replay issue key request desk ≡ ok r
    → r.0.replayed ≡ true
unfolding resolve_resolve_replay
replay-replayed issue key request desk r h = ground arith

module _ (sha256 : Text → Text) (race : Race) (req : IssueResolveRequest)
    (fair : IsFair race req.issue_id) (key reason : Text) (locked : Desk)
    (b : IsReconciled locked.ledger) (c : IsConsistent locked.inventory) (res : IssueResponse)
    (desk' : Desk) where
  lock-IsResolved :
      resolve_under_lock sha256 race req key reason locked ≡ ok (res, desk')
      → res.replayed ≡ false
      → IsResolved sha256 req key reason locked (race.before_order_lock locked) res desk'
  unfolding resolve_under_lock resolve_open
  lock-IsResolved h fresh =
      let waiting = race.before_order_lock locked in
      let (issue, e, h1) = >>=-eq-ok (load_issue locked req.store_id req.issue_id) _ h in
      let (found, own) = loaded_issue locked req.store_id req.issue_id issue e in
      elim (Bool-cases (is_open issue.status)) [
        | inr closed ↦
            let r =
              replay-replayed issue (sha256 key) (resolve_hash sha256 req reason) locked
                (res, desk') (rw closed at h1) in
            absurd (cc)
        | inl was_open ↦
            let (o, e2, h2) =
              >>=-eq-ok (load_order waiting.ledger req.store_id issue.order_id) _
                (rw was_open at h1) in
            let (here, own_order) = loaded_order waiting req.store_id issue.order_id o e2 in
            let (d, e3, h3) =
              >>=-eq-ok (decide sha256 req.resolution_type req key reason o issue waiting) _ h2 in
            record {
              issue = issue;
              issue_here = found;
              was_open = was_open;
              own_issue = own;
              order = o;
              order_here = here;
              own_order = own_order;
              decision = d;
              decided =
                  decide-IsDecided sha256 req.resolution_type req key reason o issue waiting d
                    (fair.order_reconciled locked b) (fair.order_consistent locked c) here e3;
              answer = sym (ap (λ (r : IssueResponse × Desk). r.0) (ok_injective h3));
              written =
                  let p = ok_injective h3 in
                  sym (ap (λ (r : IssueResponse × Desk). r.1) p)
                  ∙ ap (λ (r : IssueResponse × Desk). write_resolution req r.0.issue d.desk) p;
            }
      ]

-- A resolution at the desk that succeeds and is no replay, beside any fair transactions, was of an
-- open issue of the staff's store, and asked by one who may refund if it gives money back. Exactly
-- the approved amount, at most what was refundable, has gone back of the issue's order and of no
-- other: nothing for NO_REFUND and CANCEL_ONLY, the positive amount that the request names for
-- PARTIAL_REFUND, and all that was refundable, which is something, for FULL_REFUND. CANCEL_ONLY
-- and FULL_REFUND leave the order cancelled and nothing of its stock reserved; the other two leave
-- its status and the stock as they were. The books stay reconciled, the stock consistent, and the
-- issue alone is marked as resolved, with its resolution.
pub resolve_issue-IsResolved :
    (sha256 : Text → Text) (race : Race) (req : IssueResolveRequest) (desk desk' : Desk)
    (res : IssueResponse)
    → IsFair race req.issue_id
    → IsReconciled desk.ledger
    → IsConsistent desk.inventory
    → resolve_issue sha256 race req desk ≡ ok (res, desk')
    → res.replayed ≡ false
    → (key : Text) × (reason : Text) × (require_key req.idempotency_key ≡ ok key)
      × (require_reason req.reason ≡ ok reason)
      × (is_refunding req.resolution_type ≡ true → req.can_refund ≡ true)
      × IsResolved sha256 req key reason
          (race.before_issue_lock desk)
          (race.before_order_lock (race.before_issue_lock desk))
          res
          desk'
unfolding resolve_issue
resolve_issue-IsResolved sha256 race req desk desk' res fair b c h fresh =
    let (key, ek, h1) = >>=-eq-ok (require_key req.idempotency_key) _ h in
    let (reason, er, h2) = >>=-eq-ok (require_reason req.reason) _ h1 in
    let (issue, e, h3) = >>=-eq-ok (load_issue desk req.store_id req.issue_id) _ h2 in
    elim (Bool-cases (is_open issue.status)) [
      | inr closed ↦
          let r =
            replay-replayed issue (sha256 key) (resolve_hash sha256 req reason) desk (res, desk')
              (rw closed at h3) in
          absurd (cc)
      | inl open_now ↦
          let (_, allowed, h4) =
            >>=-eq-ok
              (raise_if (is_refunding req.resolution_type && not req.can_refund) 403 forbidden)
              (λ _. resolve_under_lock sha256 race req key reason (race.before_issue_lock desk))
              (rw open_now at h3) in
          (
            key,
            reason,
            ek,
            er,
            λ refunding. ground arith,
            lock-IsResolved sha256 race req fair key reason (race.before_issue_lock desk)
                (fair.issue_reconciled desk b) (fair.issue_consistent desk c) res desk' h4 fresh,
          )
    ]
