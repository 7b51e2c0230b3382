-- ===== src/Payment/Refund/Linked.antt =====
-- The refunds of the payment ledger, against the allocations that they give back, of
-- apps/api/app/services/payment_service.py and models/payment_refund.py.
use sweetops.Base.{
  ℕ, ◌≡◌, true, false, some, List, [], ◌∷◌, arith, ◌==◌, if◌then◌else◌, find, inl, inr, Bool-cases,
  sym,
}
use sweetops.Int.{ℤ, pos, ◌+ℤ◌, ◌-ℤ◌, ◌≤ℤ◌, ◌≈ℤ◌, int_laws}
use sweetops.Inventory.Books.{All}
use sweetops.Payment.Model.{PaymentAllocation, PaymentRefund, allocated, refunded_of, refunded_from}
use sweetops.Payment.Refund.{is_allocation}

abbrev pub AreDistinct : List PaymentAllocation → Type 0
AreDistinct [] = Unit {0}
AreDistinct (a ∷ as') = All (λ b. (a.id == b.id) ≡ false) as' × AreDistinct as'

-- What has been given back of an order's allocations.
abbrev pub taken : List PaymentAllocation → List PaymentRefund → ℕ → ℤ
taken [] rs order = pos 0
taken (a ∷ as') rs order =
    (if a.order_id == order then refunded_from rs a.id else pos 0) +ℤ taken as' rs order

-- Every refund is of an allocation of its order, and none is refunded beyond its amount.
pub record AreLinked (as' : List PaymentAllocation) (rs : List PaymentRefund) : Type 0 where
  pub distinct : AreDistinct as'
  pub linked : (order : ℕ) → refunded_of rs order ≈ℤ taken as' rs order
  pub covered : All (λ a. refunded_from rs a.id ≤ℤ a.amount) as'

abbrev IsFound : List PaymentAllocation → PaymentAllocation → Type 0
IsFound as' a = find (is_allocation a.id) as' ≡ some a

abbrev pub at_order : ℕ → ℕ → ℤ → ℤ
at_order order k x = if order == k then x else pos 0

-- A refund of an allocation that is not in the list changes nothing of it.
taken-absent :
    (as' : List PaymentAllocation) (rs : List PaymentRefund) (r : PaymentRefund) (k : ℕ)
    → All (λ b. (r.allocation_id == b.id) ≡ false) as'
    → taken as' (r ∷ rs) k ≈ℤ taken as' rs k
taken-absent [] rs r k h = omega int_laws
taken-absent (a ∷ as') rs r k (apart, h) = grind (int_laws, taken-absent as' rs r k h)

apart-of_eq :
    (i j : ℕ) (as' : List PaymentAllocation)
    → i ≡ j
    → All (λ b. (i == b.id) ≡ false) as'
    → All (λ b. (j == b.id) ≡ false) as'
apart-of_eq i j as' e h = rw e at h

taken-refund :
    (as' : List PaymentAllocation) (rs : List PaymentRefund) (r : PaymentRefund)
    (a : PaymentAllocation) (k : ℕ)
    → AreDistinct as'
    → find (is_allocation r.allocation_id) as' ≡ some a
    → taken as' (r ∷ rs) k ≈ℤ taken as' rs k +ℤ at_order a.order_id k r.amount
taken-refund [] rs r a k d e = absurd (cc)
taken-refund (b ∷ as') rs r a k (apart, d) e = elim (Bool-cases (b.id == r.allocation_id)) [
  | inl same ↦
      let i : b.id ≡ r.allocation_id = ground arith in
      let here : b ≡ a = ground arith in
      let o : b.order_id ≡ a.order_id = cc in
      let t = taken-absent as' rs r k (apart-of_eq b.id r.allocation_id as' i apart) in
      let same' : (r.allocation_id == b.id) ≡ true = ground arith in
      rw (sym o, same')
        (elim (Bool-cases (b.order_id == k)) [
          | inl mine ↦ rw mine (omega (int_laws, t))
          | inr others ↦ rw others (omega (int_laws, t))
        ])
  | inr other ↦
      let there : find (is_allocation r.allocation_id) as' ≡ some a = rw other at e in
      let t = taken-refund as' rs r a k d there in
      let other' : (r.allocation_id == b.id) ≡ false = ground arith in grind (int_laws, t, other')
]

refunded_from-others :
    (as' : List PaymentAllocation) (rs : List PaymentRefund) (r : PaymentRefund)
    → All (λ b. (r.allocation_id == b.id) ≡ false) as'
    → All (λ b. refunded_from rs b.id ≤ℤ b.amount) as'
    → All (λ b. refunded_from (r ∷ rs) b.id ≤ℤ b.amount) as'
refunded_from-others [] rs r apart h = tt
refunded_from-others (b ∷ as') rs r (other, apart) (le, h) =
    (rw other (omega (int_laws, le)), refunded_from-others as' rs r apart h)

covered-refund :
    (as' : List PaymentAllocation) (rs : List PaymentRefund) (r : PaymentRefund)
    (a : PaymentAllocation)
    → AreDistinct as'
    → find (is_allocation r.allocation_id) as' ≡ some a
    → r.amount ≤ℤ a.amount -ℤ refunded_from rs a.id
    → All (λ b. refunded_from rs b.id ≤ℤ b.amount) as'
    → All (λ b. refunded_from (r ∷ rs) b.id ≤ℤ b.amount) as'
covered-refund [] rs r a d e fits h = tt
covered-refund (b ∷ as') rs r a (apart, d) e fits (le, h) =
    elim (Bool-cases (b.id == r.allocation_id)) [
      | inl same ↦
          let i : b.id ≡ r.allocation_id = ground arith in
          let same' : (r.allocation_id == b.id) ≡ true = ground arith in
          let here : b ≡ a = ground arith in
          let fits' : r.amount ≤ℤ b.amount -ℤ refunded_from rs b.id = rw here fits in
          (
            rw same' (omega (int_laws, fits')),
            refunded_from-others as' rs r (apart-of_eq b.id r.allocation_id as' i apart) h,
          )
      | inr other ↦
          let other' : (r.allocation_id == b.id) ≡ false = ground arith in
          (rw other' (omega (int_laws, le)), covered-refund as' rs r a d (rw other at e) fits h)
    ]

-- A refund within what its allocation still holds keeps the two lists in agreement.
pub refund-AreLinked :
    (as' : List PaymentAllocation) (rs : List PaymentRefund) (r : PaymentRefund)
    (a : PaymentAllocation)
    → AreLinked as' rs
    → find (is_allocation r.allocation_id) as' ≡ some a
    → r.order_id ≡ a.order_id
    → r.amount ≤ℤ a.amount -ℤ refunded_from rs a.id
    → AreLinked as' (r ∷ rs)
refund-AreLinked as' rs r a l e o fits = record {
  distinct = l.distinct;
  linked = λ k.
      let t = taken-refund as' rs r a k l.distinct e in
      let t' = rw (sym o) at t in omega (int_laws, t', l.linked k);
  covered = covered-refund as' rs r a l.distinct e fits l.covered;
}

taken-le-allocated :
    (as' : List PaymentAllocation) (rs : List PaymentRefund) (k : ℕ)
    → All (λ a. refunded_from rs a.id ≤ℤ a.amount) as'
    → taken as' rs k ≤ℤ allocated as' k
taken-le-allocated [] rs k h = omega int_laws
taken-le-allocated (a ∷ as') rs k (le, h) = elim (Bool-cases (a.order_id == k)) [
  | inl mine ↦ rw mine (omega (int_laws, le, taken-le-allocated as' rs k h))
  | inr others ↦ rw others (omega (int_laws, taken-le-allocated as' rs k h))
]

-- No more goes back of an order than was collected.
pub refunded-le-allocated :
    (as' : List PaymentAllocation) (rs : List PaymentRefund) (k : ℕ)
    → AreLinked as' rs
    → refunded_of rs k ≤ℤ allocated as' k
refunded-le-allocated as' rs k l =
    omega (int_laws, taken-le-allocated as' rs k l.covered, l.linked k)

IsFound-cons :
    (a : PaymentAllocation) (as' bs : List PaymentAllocation)
    → All (λ b. (a.id == b.id) ≡ false) bs
    → All (IsFound as') bs
    → All (IsFound (a ∷ as')) bs
IsFound-cons a as' [] apart h = tt
IsFound-cons a as' (b ∷ bs) (other, apart) (e, h) = (rw other e, IsFound-cons a as' bs apart h)

-- Every allocation is found by its id.
pub distinct-IsFound : (as' : List PaymentAllocation) → AreDistinct as' → All (IsFound as') as'
distinct-IsFound [] d = tt
distinct-IsFound (a ∷ as') (apart, d) =
    (ground arith, IsFound-cons a as' as' apart (distinct-IsFound as' d))
