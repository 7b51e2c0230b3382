-- ===== src/Issue/Decide.antt =====
-- What each resolution of an issue does, in resolve_issue of
-- apps/api/app/services/order_issue_service.py.
use mathlib.Core.Path.{subst}
use sweetops.Base.{
  ℕ, ◌≡◌, refl, Bool, true, false, none, some, Option, arith, ◌==◌, if◌then◌else◌, ok, raise_if,
  >>=-eq-ok, sym, ◌∙◌, ap, ok_injective, cancel_blocked_paid, nothing_refundable,
  approved_over_refundable,
}
use sweetops.Int.{ℤ, pos, ◌+ℤ◌, ◌≤ℤ◌, ◌<ℤ◌, ◌≈ℤ◌, leb_ℤ, ltb_ℤ, int_laws}
use sweetops.Text.{Text}
use sweetops.Inventory.Books.{IsConsistent, Explained-refl}
use sweetops.Inventory.Manual.Effect.{Keeps}
use sweetops.Payment.Model.{Order, OrderStatus, cancelled, refunded_of}
use sweetops.Payment.Summary.{net_paid, order_refundable, recompute_order_summary}
use sweetops.Payment.Refund.{create_issue_refunds, give_back}
use sweetops.Payment.Refund.Outcome.{IsReconciled}
use sweetops.Payment.Refund.Issued.{IsReturned, create_issue_refunds-IsReturned}
use sweetops.Kitchen.Stock.{IsIdle}
use sweetops.Issue.{
  Desk, IssueResolveRequest, OrderIssue, Resolution, no_refund, full_refund, partial_refund,
  cancel_only, optional_amount,
}
use sweetops.Issue.Resolve.{
  Decision, is_refunding, cancel_order, require_approved, issue_refund, give_money, decide,
}
use sweetops.Issue.Cancel.{cancel_order-IsCancelled}

abbrev pub cancels : Resolution → Bool
cancels no_refund = false
cancels partial_refund = false
cancels full_refund = true
cancels cancel_only = true

abbrev pub status_after : Resolution → OrderStatus → OrderStatus
status_after res old = if cancels res then cancelled else old

-- What a decision has done with the order `o`: its money, its row, its stock. `given` is the amount
-- of the request, in hundredths.
pub record IsDecided (res : Resolution) (given : Option ℤ) (order : ℕ) (o : Order) (desk : Desk)
    (d : Decision) : Type 0 where
  pub reconciled : IsReconciled d.desk.ledger
  pub approved_nonneg : pos 0 ≤ℤ d.approved
  pub approved_covered : d.approved ≤ℤ order_refundable o
  pub approved_back :
      (k : ℕ)
      → refunded_of d.desk.ledger.refunds k
        ≈ℤ refunded_of desk.ledger.refunds k +ℤ (if order == k then d.approved else pos 0)
  pub nothing_approved : is_refunding res ≡ false → d.approved ≡ pos 0
  pub some_approved : is_refunding res ≡ true → pos 0 <ℤ d.approved
  pub given_approved : res ≡ partial_refund → given ≡ some d.approved
  pub whole_approved : res ≡ full_refund → d.approved ≡ order_refundable o
  pub row : Order
  pub row_here : d.desk.ledger.orders order ≡ some row
  pub row_status : row.status ≡ status_after res o.status
  pub row_refunded : row.refunded_amount ≈ℤ o.refunded_amount +ℤ d.approved
  pub row_paid : row.paid_amount ≡ o.paid_amount
  pub others_kept : (k : ℕ) → (order == k) ≡ false → d.desk.ledger.orders k ≡ desk.ledger.orders k
  pub stock : Keeps desk.inventory d.desk.inventory
  pub released : cancels res ≡ true → IsIdle o.store_id order d.desk.inventory
  pub stock_kept : cancels res ≡ false → d.desk.inventory ≡ desk.inventory
  pub issues_kept : d.desk.issues ≡ desk.issues

require_approved_pos :
    (given : Option ℤ) (amount : ℤ) → require_approved given ≡ ok amount → pos 0 <ℤ amount
unfolding require_approved
require_approved_pos none amount h = absurd (cc)
require_approved_pos (some x) amount h = ground arith

require_approved-given :
    (given : Option ℤ) (amount : ℤ) → require_approved given ≡ ok amount → given ≡ some amount
unfolding require_approved
require_approved-given none amount h = absurd (cc)
require_approved-given (some x) amount h = ap some (ground arith)

module _ (sha256 : Text → Text) (req : IssueResolveRequest) (key reason : Text) (o : Order)
    (issue : OrderIssue) (desk : Desk) (d : Decision) (b : IsReconciled desk.ledger)
    (c : IsConsistent desk.inventory) (here : desk.ledger.orders issue.order_id ≡ some o) where
  refundable_nonneg : pos 0 ≤ℤ order_refundable o
  unfolding order_refundable
  refundable_nonneg = ground arith

  no_refund-IsDecided :
      decide sha256 no_refund req key reason o issue desk ≡ ok d
      → IsDecided no_refund (optional_amount req.approved_refund_amount) issue.order_id o desk d
  unfolding decide
  no_refund-IsDecided h =
      subst (IsDecided no_refund (optional_amount req.approved_refund_amount) issue.order_id o desk)
        (ok_injective h)
        (record {
          reconciled = b;
          approved_nonneg = omega arith;
          approved_covered = refundable_nonneg;
          approved_back = λ k. grind int_laws;
          nothing_approved = λ e. refl;
          some_approved = λ e. absurd (cc);
          given_approved = λ e. absurd (cc);
          whole_approved = λ e. absurd (cc);
          row = o;
          row_here = here;
          row_status = refl;
          row_refunded = omega int_laws;
          row_paid = refl;
          others_kept = λ k e. refl;
          stock = record { consistent = c; explained = Explained-refl desk.inventory };
          released = λ e. absurd (cc);
          stock_kept = λ e. refl;
          issues_kept = refl;
        })

  cancel_only-IsDecided :
      decide sha256 cancel_only req key reason o issue desk ≡ ok d
      → IsDecided cancel_only (optional_amount req.approved_refund_amount) issue.order_id o desk d
  unfolding decide
  cancel_only-IsDecided h =
      let (_, _, h1) =
        >>=-eq-ok (raise_if (ltb_ℤ (pos 0) (net_paid o)) 409 cancel_blocked_paid) _ h in
      let (desk', e, h2) = >>=-eq-ok (cancel_order req issue.order_id desk) _ h1 in
      let x = cancel_order-IsCancelled req issue.order_id o desk desk' here b c e in
      let self : (issue.order_id == issue.order_id) ≡ true = ground arith in
      subst
        (IsDecided cancel_only (optional_amount req.approved_refund_amount) issue.order_id o desk)
        (ok_injective h2)
        (record {
          reconciled = x.reconciled;
          approved_nonneg = omega arith;
          approved_covered = refundable_nonneg;
          approved_back = λ k. rw (x.refunds_kept) (grind int_laws);
          nothing_approved = λ e. refl;
          some_approved = λ e. absurd (cc);
          given_approved = λ e. absurd (cc);
          whole_approved = λ e. absurd (cc);
          row = record o { status = cancelled };
          row_here = x.orders_written issue.order_id ∙ rw self refl;
          row_status = refl;
          row_refunded = omega int_laws;
          row_paid = refl;
          others_kept = λ k e. x.orders_written k ∙ rw e refl;
          stock = x.stock;
          released = λ e. x.idle;
          stock_kept = λ e. absurd (cc);
          issues_kept = x.issues_kept;
        })

  given-IsReturned :
      (amount : ℤ) (d1 : Decision)
      → give_money sha256 req key reason o issue amount desk ≡ ok d1
      → IsReturned (issue_refund sha256 req key reason o issue amount) o desk.ledger d1.desk.ledger
        × (d1.approved ≡ amount)
        × (d1.desk.inventory ≡ desk.inventory)
        × (d1.desk.issues ≡ desk.issues)
  unfolding give_money
  given-IsReturned amount d1 h =
      let cmd = issue_refund sha256 req key reason o issue amount in
      let (r, e, h1) = >>=-eq-ok (create_issue_refunds sha256 cmd o desk.ledger) _ h in
      let x = create_issue_refunds-IsReturned sha256 cmd o desk.ledger b here r.0 r.1 e in
      (
        subst (IsReturned cmd o desk.ledger)
            (ap (λ (q : Decision). q.desk.ledger) (ok_injective h1)) x,
        sym (ap (λ (q : Decision). q.approved) (ok_injective h1)),
        sym (ap (λ (q : Decision). q.desk.inventory) (ok_injective h1)),
        sym (ap (λ (q : Decision). q.desk.issues) (ok_injective h1)),
      )

  partial_refund-IsDecided :
      decide sha256 partial_refund req key reason o issue desk ≡ ok d
      → IsDecided partial_refund
          (optional_amount req.approved_refund_amount)
          issue.order_id
          o
          desk
          d
  unfolding decide require_approved recompute_order_summary
  partial_refund-IsDecided h =
      let (_, _, h1) =
        >>=-eq-ok (raise_if (leb_ℤ (order_refundable o) (pos 0)) 409 nothing_refundable) _ h in
      let (amount, got, h2) =
        >>=-eq-ok (require_approved (optional_amount req.approved_refund_amount)) _ h1 in
      let (_, covered, h3) =
        >>=-eq-ok (raise_if (ltb_ℤ (order_refundable o) amount) 409 approved_over_refundable) _
          h2 in
      let (x, approved, inv, issues) = given-IsReturned amount d h3 in
      let self : (issue.order_id == issue.order_id) ≡ true = ground arith in
      let p : pos 0 <ℤ amount =
        require_approved_pos (optional_amount req.approved_refund_amount) amount got in
      record {
        reconciled = x.reconciled;
        approved_nonneg = rw approved (omega (arith, p));
        approved_covered = rw approved (ground arith);
        approved_back = λ k. rw approved (x.total_back k);
        nothing_approved = λ e. absurd (cc);
        some_approved = λ e. rw approved p;
        given_approved = λ e.
            require_approved-given (optional_amount req.approved_refund_amount) amount got
            ∙ ap some (sym approved);
        whole_approved = λ e. absurd (cc);
        row = give_back o amount;
        row_here = ap (λ (rows : ℕ → Option Order). rows issue.order_id) x.order_row ∙ rw self refl;
        row_status = refl;
        row_refunded = rw approved refl;
        row_paid = refl;
        others_kept = λ k e. ap (λ (rows : ℕ → Option Order). rows k) x.order_row ∙ rw e refl;
        stock = rw inv (record { consistent = c; explained = Explained-refl desk.inventory });
        released = λ e. absurd (cc);
        stock_kept = λ e. inv;
        issues_kept = issues;
      }

  full_refund-IsDecided :
      decide sha256 full_refund req key reason o issue desk ≡ ok d
      → IsDecided full_refund (optional_amount req.approved_refund_amount) issue.order_id o desk d
  unfolding decide recompute_order_summary
  full_refund-IsDecided h =
      let (_, refundable, h1) =
        >>=-eq-ok (raise_if (leb_ℤ (order_refundable o) (pos 0)) 409 nothing_refundable) _ h in
      let (d1, e, h2) =
        >>=-eq-ok (give_money sha256 req key reason o issue (order_refundable o) desk) _ h1 in
      let (desk', e', h3) = >>=-eq-ok (cancel_order req issue.order_id d1.desk) _ h2 in
      let (x, approved, inv, issues) = given-IsReturned (order_refundable o) d1 e in
      let some_left : pos 0 <ℤ order_refundable o = ground arith in
      let self : (issue.order_id == issue.order_id) ≡ true = ground arith in
      let back = give_back o (order_refundable o) in
      let here1 : d1.desk.ledger.orders issue.order_id ≡ some back =
        ap (λ (rows : ℕ → Option Order). rows issue.order_id) x.order_row ∙ rw self refl in
      let y =
        cancel_order-IsCancelled req issue.order_id back d1.desk desk' here1 x.reconciled (rw inv c)
          e' in
      subst
        (IsDecided full_refund (optional_amount req.approved_refund_amount) issue.order_id o desk)
        (ok_injective h3)
        (record {
          reconciled = y.reconciled;
          approved_nonneg = rw approved refundable_nonneg;
          approved_covered = rw approved (omega arith);
          approved_back = λ k. rw (approved, y.refunds_kept) (x.total_back k);
          nothing_approved = λ e. absurd (cc);
          some_approved = λ e. rw approved some_left;
          given_approved = λ e. absurd (cc);
          whole_approved = λ e. approved;
          row = record back { status = cancelled };
          row_here = y.orders_written issue.order_id ∙ rw self refl;
          row_status = refl;
          row_refunded = rw approved refl;
          row_paid = refl;
          others_kept = λ k e.
              y.orders_written k
              ∙ rw e (ap (λ (rows : ℕ → Option Order). rows k) x.order_row ∙ rw e refl);
          stock = subst (λ s. Keeps s desk'.inventory) inv y.stock;
          released = λ e. y.idle;
          stock_kept = λ e. absurd (cc);
          issues_kept = y.issues_kept ∙ issues;
        })

pub decide-IsDecided :
    (sha256 : Text → Text) (res : Resolution) (req : IssueResolveRequest) (key reason : Text)
    (o : Order) (issue : OrderIssue) (desk : Desk) (d : Decision)
    → IsReconciled desk.ledger
    → IsConsistent desk.inventory
    → desk.ledger.orders issue.order_id ≡ some o
    → decide sha256 res req key reason o issue desk ≡ ok d
    → IsDecided res (optional_amount req.approved_refund_amount) issue.order_id o desk d
decide-IsDecided sha256 no_refund = no_refund-IsDecided sha256
decide-IsDecided sha256 full_refund = full_refund-IsDecided sha256
decide-IsDecided sha256 partial_refund = partial_refund-IsDecided sha256
decide-IsDecided sha256 cancel_only = cancel_only-IsDecided sha256
