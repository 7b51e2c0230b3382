-- ===== src/Payment/Refund/Distribute.antt =====
-- How create_issue_refunds of apps/api/app/services/payment_service.py spreads an amount over the
-- allocations of an order.
use mathlib.Core.Path.{subst}
use sweetops.Base.{
  ℕ, ◌≡◌, refl, false, some, List, [], ◌∷◌, arith, ◌==◌, leb, find, ok, >>=-eq-ok, inl, inr,
  Bool-cases, Option-cases, sym, ==_iff,
}
use sweetops.Int.{ℤ, pos, ◌+ℤ◌, ◌-ℤ◌, ◌≤ℤ◌, ◌<ℤ◌, ◌≈ℤ◌, leb_ℤ, ltb_ℤ, smaller, int_laws}
use sweetops.Inventory.Books.{All}
use sweetops.Payment.Model.{
  PaymentAllocation, PaymentSettlement, PaymentRefund, Ledger, allocated, refunded_from,
}
use sweetops.Payment.Refund.{
  is_allocation, is_settlement, allocation_refundable, insert_allocation, allocations_of, Shares,
  distribute, given,
}
use sweetops.Payment.Refund.Linked.{AreDistinct, taken}

-- What a list of allocations still holds.
abbrev pub holdings : Ledger → List PaymentAllocation → ℤ
holdings led [] = pos 0
holdings led (a ∷ as') = allocation_refundable led a +ℤ holdings led as'

-- The sort keeps what is said of every element, the sums, and that ids are distinct.
module _ (P : PaymentAllocation → Type 0) where
  insert-All :
      (a : PaymentAllocation) (bs : List PaymentAllocation)
      → P a
      → All P bs
      → All P (insert_allocation a bs)
  unfolding insert_allocation
  insert-All a [] p h = (p, tt)
  insert-All a (b ∷ bs) p (q, h) = elim (Bool-cases (leb a.id b.id)) [
    | inl first ↦ rw first (p, (q, h))
    | inr later ↦ rw later (q, insert-All a bs p h)
  ]

  pub allocations_of-All :
      (as' : List PaymentAllocation) (order : ℕ) → All P as' → All P (allocations_of as' order)
  unfolding allocations_of
  allocations_of-All [] order h = tt
  allocations_of-All (a ∷ as') order (p, h) = elim (Bool-cases (a.order_id == order)) [
    | inl mine ↦
        rw mine (insert-All a (allocations_of as' order) p (allocations_of-All as' order h))
    | inr others ↦ rw others (allocations_of-All as' order h)
  ]

  pub allocations_of-All_mine :
      (as' : List PaymentAllocation) (order : ℕ)
      → ((a : PaymentAllocation) → a.order_id ≡ order → P a)
      → All P (allocations_of as' order)
  unfolding allocations_of
  allocations_of-All_mine [] order h = tt
  allocations_of-All_mine (a ∷ as') order h = elim (Bool-cases (a.order_id == order)) [
    | inl mine ↦ rw mine (
        insert-All a (allocations_of as' order) (h a ((==_iff a.order_id order).0 mine))
          (allocations_of-All_mine as' order h))
    | inr others ↦ rw others (allocations_of-All_mine as' order h)
  ]

insert-AreDistinct :
    (a : PaymentAllocation) (bs : List PaymentAllocation)
    → All (λ b. (a.id == b.id) ≡ false) bs
    → AreDistinct bs
    → AreDistinct (insert_allocation a bs)
unfolding insert_allocation
insert-AreDistinct a [] h d = (tt, tt)
insert-AreDistinct a (b ∷ bs) (p, h) (q, d) = elim (Bool-cases (leb a.id b.id)) [
  | inl first ↦ rw first ((p, h), (q, d))
  | inr later ↦
      let back : (b.id == a.id) ≡ false = ground arith in
      rw later (insert-All (λ c. (b.id == c.id) ≡ false) a bs back q, insert-AreDistinct a bs h d)
]

pub allocations_of-AreDistinct :
    (as' : List PaymentAllocation) (order : ℕ)
    → AreDistinct as'
    → AreDistinct (allocations_of as' order)
unfolding allocations_of
allocations_of-AreDistinct [] order d = tt
allocations_of-AreDistinct (a ∷ as') order (p, d) = elim (Bool-cases (a.order_id == order)) [
  | inl mine ↦ rw mine (
      insert-AreDistinct a (allocations_of as' order)
        (allocations_of-All (λ b. (a.id == b.id) ≡ false) as' order p)
        (allocations_of-AreDistinct as' order d))
  | inr others ↦ rw others (allocations_of-AreDistinct as' order d)
]

insert-holdings :
    (led : Ledger) (a : PaymentAllocation) (bs : List PaymentAllocation)
    → holdings led (insert_allocation a bs) ≈ℤ allocation_refundable led a +ℤ holdings led bs
unfolding insert_allocation
insert-holdings led a [] = omega int_laws
insert-holdings led a (b ∷ bs) = elim (Bool-cases (leb a.id b.id)) [
  | inl first ↦ rw first (omega int_laws)
  | inr later ↦ rw later (omega (int_laws, insert-holdings led a bs))
]

-- What an order's allocations still hold is what was collected less what was given back.
pub holdings_lem :
    (led : Ledger) (as' : List PaymentAllocation) (order : ℕ)
    → holdings led (allocations_of as' order) ≈ℤ allocated as' order -ℤ taken as' led.refunds order
unfolding allocations_of allocation_refundable
holdings_lem led [] order = omega int_laws
holdings_lem led (a ∷ as') order = elim (Bool-cases (a.order_id == order)) [
  | inl mine ↦ rw mine (
      omega
        (int_laws, insert-holdings led a (allocations_of as' order), holdings_lem led as' order))
  | inr others ↦ rw others (omega (int_laws, holdings_lem led as' order))
]

-- The shares can be paid one after the other: each from its own allocation of the order, within
-- what it still holds.
abbrev pub ArePayable : List PaymentAllocation → List PaymentRefund → ℕ → Shares → Type 0
ArePayable as' rs order [] = Unit {0}
ArePayable as' rs order ((a, amount) ∷ rest) =
    (find (is_allocation a.id) as' ≡ some a)
    × (a.order_id ≡ order)
    × (pos 0 <ℤ amount)
    × (amount ≤ℤ a.amount -ℤ refunded_from rs a.id)
    × All (λ e. (a.id == e.0.id) ≡ false) rest
    × ArePayable as' rs order rest

-- One round of the loop that takes a share.
module _ (led : Ledger) where
  abbrev share_of : PaymentAllocation → ℤ → ℤ
  share_of a remaining = smaller remaining (allocation_refundable led a)

  -- The rounds, as cases.
  data Round (a : PaymentAllocation) (as' : List PaymentAllocation) (remaining : ℤ)
      (shares : Shares) (left : ℤ) : Type 0 where
    all_given :
        remaining ≤ℤ pos 0 → shares ≡ [] → left ≡ remaining → Round a as' remaining shares left
    skipped :
        allocation_refundable led a ≤ℤ pos 0
        → distribute led as' remaining ≡ ok (shares, left)
        → Round a as' remaining shares left
    took :
        (rest : Shares)
        → pos 0 <ℤ remaining
        → pos 0 <ℤ allocation_refundable led a
        → distribute led as' (remaining -ℤ share_of a remaining) ≡ ok (rest, left)
        → shares ≡ (a, share_of a remaining) ∷ rest
        → Round a as' remaining shares left

  round :
      (a : PaymentAllocation) (as' : List PaymentAllocation) (remaining : ℤ) (shares : Shares)
      (left : ℤ)
      → distribute led (a ∷ as') remaining ≡ ok (shares, left)
      → Round a as' remaining shares left
  unfolding distribute
  round a as' remaining shares left h = elim (Bool-cases (leb_ℤ remaining (pos 0))) [
    | inl done ↦
        let h' = rw (done, distribute) at h in
        all_given (ground arith) (ground arith) (ground arith)
    | inr more ↦ elim (Bool-cases (leb_ℤ (allocation_refundable led a) (pos 0))) [
      | inl empty ↦ skipped (ground arith) (rw (more, empty, distribute) at h)
      | inr full ↦ elim (Option-cases (find (is_settlement a.settlement_id) led.settlements)) [
        | inl e ↦ absurd (let h' = rw (more, full, e, distribute) at h in ground arith)
        | inr (s, e) ↦
            let (r, e1, h1) =
              >>=-eq-ok (distribute led as' (remaining -ℤ share_of a remaining)) _
                (rw (more, full, e, distribute) at h) in
            took r.0 (ground arith) (ground arith) (ground arith) (ground arith)
      ]
    ]
  ]

  pub distribute-given :
      (as' : List PaymentAllocation) (remaining : ℤ) (shares : Shares) (left : ℤ)
      → distribute led as' remaining ≡ ok (shares, left)
      → given shares +ℤ left ≈ℤ remaining
  unfolding distribute
  distribute-given [] remaining shares left h =
      let e : shares ≡ [] = ground arith in
      let f : left ≡ remaining = ground arith in rw (e, f) (omega int_laws)
  distribute-given (a ∷ as') remaining shares left h =
      let ih = distribute-given as' in
      elim (round a as' remaining shares left h) [
        | all_given p e f ↦ rw (e, f) (omega int_laws)
        | skipped p e ↦ ih remaining shares left e
        | took rest p q e f ↦
            let i = ih (remaining -ℤ share_of a remaining) rest left e in rw f (omega (int_laws, i))
      ]

  distribute-All :
      (P : PaymentAllocation → Type 0) (as' : List PaymentAllocation) (remaining : ℤ)
      (shares : Shares) (left : ℤ)
      → All P as'
      → distribute led as' remaining ≡ ok (shares, left)
      → All (λ e. P e.0) shares
  unfolding distribute
  distribute-All P [] remaining shares left p h =
      let e : [] ≡ shares = ground arith in subst (All (λ e. P e.0)) e tt
  distribute-All P (a ∷ as') remaining shares left (p, ps) h =
      let ih = distribute-All P as' in
      elim (round a as' remaining shares left h) [
        | all_given q e f ↦ subst (All (λ e. P e.0)) (sym e) tt
        | skipped q e ↦ ih remaining shares left ps e
        | took rest q r e f ↦
            subst (All (λ e. P e.0)) (sym f)
              (p, ih (remaining -ℤ share_of a remaining) rest left ps e)
      ]

  pub distribute-ArePayable :
      (all as' : List PaymentAllocation) (order : ℕ) (remaining : ℤ) (shares : Shares) (left : ℤ)
      → All (λ a. find (is_allocation a.id) all ≡ some a) as'
      → All (λ a. a.order_id ≡ order) as'
      → AreDistinct as'
      → distribute led as' remaining ≡ ok (shares, left)
      → ArePayable all led.refunds order shares
  unfolding distribute allocation_refundable
  distribute-ArePayable all [] order remaining shares left f o d h =
      let e : [] ≡ shares = ground arith in subst (ArePayable all led.refunds order) e tt
  distribute-ArePayable all (a ∷ as') order remaining shares left (found, f) (mine, o) (apart, d)
        h =
      let ih = distribute-ArePayable all as' order in
      elim (round a as' remaining shares left h) [
        | all_given q e g ↦ subst (ArePayable all led.refunds order) (sym e) tt
        | skipped q e ↦ ih remaining shares left f o d e
        | took rest q r e g ↦ subst (ArePayable all led.refunds order) (sym g) (
          found,
          mine,
          ground arith,
          ground arith,
          distribute-All (λ b. (a.id == b.id) ≡ false) as' (remaining -ℤ share_of a remaining) rest
              left apart e,
          ih (remaining -ℤ share_of a remaining) rest left f o d e,
        )
      ]

  abbrev pub IsSettled : PaymentAllocation → Type 0
  IsSettled a =
      (s : PaymentSettlement) × (find (is_settlement a.settlement_id) led.settlements ≡ some s)

  holdings_nonneg :
      (as' : List PaymentAllocation)
      → All (λ a. pos 0 ≤ℤ allocation_refundable led a) as'
      → pos 0 ≤ℤ holdings led as'
  holdings_nonneg [] h = omega int_laws
  holdings_nonneg (a ∷ as') (p, h) = omega (int_laws, p, holdings_nonneg as' h)

  -- An amount within what the allocations hold is given whole.
  pub distribute_total :
      (as' : List PaymentAllocation) (remaining : ℤ)
      → All IsSettled as'
      → All (λ a. pos 0 ≤ℤ allocation_refundable led a) as'
      → pos 0 ≤ℤ remaining
      → remaining ≤ℤ holdings led as'
      → (shares : Shares) × (left : ℤ) × (distribute led as' remaining ≡ ok (shares, left))
        × (left ≈ℤ pos 0)
  unfolding distribute
  distribute_total [] remaining s q p le = ([], remaining, refl, omega int_laws)
  distribute_total (a ∷ as') remaining ((row, e), s) (r, q) p le =
      elim (Bool-cases (leb_ℤ remaining (pos 0))) [
        | inl done ↦ ([], remaining, rw (done, distribute) refl, ground arith)
        | inr more ↦ elim (Bool-cases (leb_ℤ (allocation_refundable led a) (pos 0))) [
          | inl empty ↦
              let none_here : allocation_refundable led a ≤ℤ pos 0 = ground arith in
              let (shares, left, d, z) =
                distribute_total as' remaining s q p (omega (int_laws, le, none_here)) in
              (shares, left, rw (more, empty, distribute) d, z)
          | inr full ↦
              let share = share_of a remaining in
              let within : share ≤ℤ remaining = ground arith in
              let enough : remaining -ℤ share ≤ℤ holdings led as' =
                elim (Bool-cases (ltb_ℤ remaining (allocation_refundable led a))) [
                  | inl less ↦ rw less (omega (int_laws, holdings_nonneg as' q))
                  | inr rest ↦ rw rest (omega (int_laws, le))
                ] in
              let (shares, left, d, z) =
                distribute_total as' (remaining -ℤ share) s q (omega (int_laws, within)) enough in
              ((a, share) ∷ shares, left, rw (more, full, e, distribute) (rw d refl), z)
        ]
      ]

  pub distribute-left :
      (as' : List PaymentAllocation) (remaining : ℤ) (shares : Shares) (left : ℤ)
      → pos 0 ≤ℤ remaining
      → distribute led as' remaining ≡ ok (shares, left)
      → pos 0 ≤ℤ left
  unfolding distribute
  distribute-left [] remaining shares left p h =
      let f : remaining ≡ left = ground arith in rw (sym f) p
  distribute-left (a ∷ as') remaining shares left p h =
      let ih = distribute-left as' in
      elim (round a as' remaining shares left h) [
        | all_given q e f ↦ rw f p
        | skipped q e ↦ ih remaining shares left p e
        | took rest q r e f ↦
            let within : share_of a remaining ≤ℤ remaining = ground arith in
            ih (remaining -ℤ share_of a remaining) rest left (omega (int_laws, within)) e
      ]
