-- ===== src/Payment/Refund/Issued.antt =====
-- What create_issue_refunds of apps/api/app/services/payment_service.py gives back, on the order row
-- that its caller has locked.
use mathlib.Core.Path.{subst, ap, ap₂}
use sweetops.Base.{
  ℕ, suc, ◌≡◌, refl, false, ◌||◌, some, List, [], ◌∷◌, arith, ◌==◌, if◌then◌else◌, find, ok,
  raise_if, >>=-eq-ok, inl, inr, Bool-cases, Option-cases, sym, refund_over_balance,
}
use sweetops.Int.{ℤ, pos, ◌+ℤ◌, ◌≤ℤ◌, ◌≈ℤ◌, leb_ℤ, ltb_ℤ, int_laws}
use sweetops.Text.{Text}
use sweetops.Inventory.Books.{All}
use sweetops.Payment.Model.{
  Order, PaymentAllocation, PaymentRefund, Ledger, set_order, refunded_of, refunded_from, audit,
  payment_refunded,
}
use sweetops.Payment.Summary.{net_paid, order_refundable}
use sweetops.Payment.Refund.{
  is_allocation, allocation_refundable, allocations_of, Shares, distribute, given, give_back,
  IssueRefund, is_nil, find_refund_by_key, share_key, share_row, add_shares, create_issue_refunds,
}
use sweetops.Payment.Refund.Linked.{AreLinked, refund-AreLinked, distinct-IsFound}
use sweetops.Payment.Refund.Distribute.{
  ArePayable, allocations_of-All, allocations_of-All_mine, allocations_of-AreDistinct,
  distribute-given, distribute-ArePayable, distribute-left, IsSettled, holdings, holdings_lem,
  distribute_total,
}
use sweetops.Payment.Refund.Outcome.{
  IsReconciled, IsReconciled-of_rows, returned, returned-IsReconciled,
}

payable_later :
    (as' : List PaymentAllocation) (rs : List PaymentRefund) (order : ℕ) (r : PaymentRefund)
    (shares : Shares)
    → All (λ e. (r.allocation_id == e.0.id) ≡ false) shares
    → ArePayable as' rs order shares
    → ArePayable as' (r ∷ rs) order shares
payable_later as' rs order r [] apart p = tt
payable_later as' rs order r ((a, amount) ∷ shares) (other, apart)
      (found, mine, some_left, fits, later, p) =
    (
      found,
      mine,
      some_left,
      rw other (omega (int_laws, fits)),
      later,
      payable_later as' rs order r shares apart p,
    )

-- What the flush leaves.
record AreAdded (order : ℕ) (shares : Shares) (led led' : Ledger) : Type 0 where
  orders_kept : led'.orders ≡ led.orders
  allocations_kept : led'.allocations ≡ led.allocations
  settlements_kept : led'.settlements ≡ led.settlements
  linked : AreLinked led.allocations led'.refunds
  sums :
      (k : ℕ)
      → refunded_of led'.refunds k
        ≈ℤ refunded_of led.refunds k +ℤ (if order == k then given shares else pos 0)

module _ (sha256 : Text → Text) (c : IssueRefund) where
  abbrev with_share : PaymentAllocation → ℤ → Ledger → Ledger
  with_share a amount led = audit payment_refunded a.id c.user_id (record led {
    refunds = share_row sha256 c a amount led.next_id ∷ led.refunds;
    next_id = suc led.next_id;
  })

  add_shares-AreAdded :
      (shares : Shares) (led led' : Ledger)
      → AreLinked led.allocations led.refunds
      → ArePayable led.allocations led.refunds c.order_id shares
      → add_shares sha256 c shares led ≡ ok led'
      → AreAdded c.order_id shares led led'
  unfolding add_shares
  add_shares-AreAdded [] led led' l p h = record {
    orders_kept = ground arith;
    allocations_kept = ground arith;
    settlements_kept = ground arith;
    linked =
        let e : led.refunds ≡ led'.refunds = ground arith in subst (AreLinked led.allocations) e l;
    sums = λ k. let e : led.refunds ≡ led'.refunds = ground arith in rw (sym e) (grind int_laws);
  }
  add_shares-AreAdded ((a, amount) ∷ shares) led led' l (found, mine, some_left, fits, apart, p) h =
      elim (Option-cases (find_refund_by_key led c.store_id (share_key sha256 c a))) [
        | inr (r, e) ↦ absurd (let h' = rw (e, add_shares) at h in cc)
        | inl e ↦
            let row = share_row sha256 c a amount led.next_id in
            let l1 = refund-AreLinked led.allocations led.refunds row a l found (sym mine) fits in
            let p1 = payable_later led.allocations led.refunds c.order_id row shares apart p in
            let i =
              add_shares-AreAdded shares (with_share a amount led) led' l1 p1
                (rw (e, add_shares) at h) in
            record {
              orders_kept = i.orders_kept;
              allocations_kept = i.allocations_kept;
              settlements_kept = i.settlements_kept;
              linked = i.linked;
              sums = λ k. elim (Bool-cases (c.order_id == k)) [
                | inl here ↦ let s = rw here at (i.sums k) in rw here (omega (int_laws, s))
                | inr there ↦ let s = rw there at (i.sums k) in rw there (omega (int_laws, s))
              ];
            }
      ]

left_nonneg :
    (led : Ledger) (as' : List PaymentAllocation)
    → All (λ a. refunded_from led.refunds a.id ≤ℤ a.amount) as'
    → All (λ a. pos 0 ≤ℤ allocation_refundable led a) as'
unfolding allocation_refundable
left_nonneg led [] h = tt
left_nonneg led (a ∷ as') (le, h) = (omega (int_laws, le), left_nonneg led as' h)

-- What a successful refund of an issue has done: exactly the total went back of that order, and of
-- no other, its row says so, and the books are reconciled.
pub record IsReturned (c : IssueRefund) (o : Order) (led led' : Ledger) : Type 0 where
  pub reconciled : IsReconciled led'
  pub total_back :
      (k : ℕ)
      → refunded_of led'.refunds k
        ≈ℤ refunded_of led.refunds k +ℤ (if c.order_id == k then c.total_amount else pos 0)
  pub order_row : led'.orders ≡ set_order c.order_id (give_back o c.total_amount) led.orders
  pub allocations_kept : led'.allocations ≡ led.allocations
  pub settlements_kept : led'.settlements ≡ led.settlements

module _ (sha256 : Text → Text) (c : IssueRefund) (o : Order) (led : Ledger) (b : IsReconciled led)
    (here : led.orders c.order_id ≡ some o) where
  abbrev mine : List PaymentAllocation
  mine = allocations_of led.allocations c.order_id

  added-IsReturned :
      (shares : Shares) (left : ℤ) (led1 : Ledger)
      → pos 0 ≤ℤ c.total_amount
      → distribute led mine c.total_amount ≡ ok (shares, left)
      → left ≤ℤ pos 0
      → add_shares sha256 c shares led ≡ ok led1
      → IsReturned c o led
          (record led1 { orders = set_order c.order_id (give_back o (given shares)) led1.orders })
  added-IsReturned shares left led1 p d none_left h =
      let given_all = distribute-given led mine c.total_amount shares left d in
      let left_nonneg = distribute-left led mine c.total_amount shares left p d in
      let same : given shares ≡ c.total_amount = omega (int_laws, given_all, left_nonneg) in
      let payable =
        distribute-ArePayable led led.allocations mine c.order_id c.total_amount shares left
          (allocations_of-All (λ a. find (is_allocation a.id) led.allocations ≡ some a)
            led.allocations c.order_id (distinct-IsFound led.allocations b.linked.distinct))
          (allocations_of-All_mine (λ a. a.order_id ≡ c.order_id) led.allocations c.order_id
            (λ a e. e))
          (allocations_of-AreDistinct led.allocations c.order_id b.linked.distinct) d in
      let added = add_shares-AreAdded sha256 c shares led led1 b.linked payable h in
      let after = returned c.order_id o (given shares) led led1.refunds in
      let books =
        returned-IsReconciled c.order_id o (given shares) led led1.refunds b here (rw same p)
          added.linked added.sums in
      record {
        reconciled =
            IsReconciled-of_rows after
              (record led1 {
                orders = set_order c.order_id (give_back o (given shares)) led1.orders;
              })
              (ap (set_order c.order_id (give_back o (given shares))) added.orders_kept)
              added.allocations_kept refl books;
        total_back = λ k. rw (sym same) (added.sums k);
        order_row =
            ap₂ (λ x rows. set_order c.order_id (give_back o x) rows) same added.orders_kept;
        allocations_kept = added.allocations_kept;
        settlements_kept = added.settlements_kept;
      }

  -- When create_issue_refunds succeeds, on reconciled books and with the order's row as it stands,
  -- exactly the total goes back of that order and of no other, the order's row says so, and the
  -- books are reconciled: no allocation is refunded beyond its amount.
  pub create_issue_refunds-IsReturned :
      (first : ℕ) (led' : Ledger)
      → create_issue_refunds sha256 c o led ≡ ok (first, led')
      → IsReturned c o led led'
  unfolding create_issue_refunds
  create_issue_refunds-IsReturned first led' h =
      let (_, some_total, h1) =
        >>=-eq-ok (raise_if (leb_ℤ c.total_amount (pos 0)) 409 refund_over_balance) _ h in
      let (r, d, h2) = >>=-eq-ok (distribute led mine c.total_amount) _ h1 in
      let (_, enough, h3) =
        >>=-eq-ok (raise_if (ltb_ℤ (pos 0) r.1 || is_nil r.0) 409 refund_over_balance) _ h2 in
      let (led1, e, h4) = >>=-eq-ok (add_shares sha256 c r.0 led) _ h3 in
      subst (IsReturned c o led) (ground arith)
        (added-IsReturned r.0 r.1 led1 (ground arith) d (ground arith) e)

  -- The balance guard of create_issue_refunds refuses no total that order_refundable allows: on
  -- reconciled books whose settlements exist, the loop gives exactly the total.
  pub distribute-order_refundable :
      All (IsSettled led) led.allocations
      → pos 0 ≤ℤ c.total_amount
      → c.total_amount ≤ℤ order_refundable o
      → (shares : Shares) × (left : ℤ) × (distribute led mine c.total_amount ≡ ok (shares, left))
        × (left ≡ pos 0)
        × (given shares ≡ c.total_amount)
  unfolding order_refundable allocation_refundable
  distribute-order_refundable settled p le =
      let id = c.order_id in
      let held = holdings_lem led led.allocations id in
      let paid = b.balanced.paid_is_allocated id o here in
      let back = b.refunded_is_summed id o here in
      let linked = b.linked.linked id in
      let sound = b.balanced.sound id o here in
      let ceiling : order_refundable o ≤ℤ holdings led mine =
        elim (Bool-cases (ltb_ℤ (pos 0) (net_paid o))) [
          | inl more ↦ rw more (omega (int_laws, held, paid, back, linked))
          | inr none_left ↦
              rw none_left (omega (int_laws, held, paid, back, linked, sound.refunded_covered))
        ] in
      let (shares, left, d, z) =
        distribute_total led mine c.total_amount
          (allocations_of-All (IsSettled led) led.allocations id settled)
          (allocations_of-All (λ a. pos 0 ≤ℤ allocation_refundable led a) led.allocations id
            (left_nonneg led led.allocations b.linked.covered))
          p (omega (int_laws, le, ceiling)) in
      (
        shares,
        left,
        d,
        omega (int_laws, z),
        omega (int_laws, z, distribute-given led mine c.total_amount shares left d),
      )
