-- ===== src/Payment/Collect/Due.antt =====
-- What _do_collect of apps/api/app/services/payment_service.py allocates to the locked orders.
use sweetops.Base.{
  true, ℕ, ◌<◌, ◌≡◌, refl, Bool, ◌&&◌, Option, none, some, List, [], ◌∷◌, arith, ltb, ◌==◌, ok, ◌⊎◌,
  refunded_recollect, raise_if, ◌>>=◌, >>=-eq-ok, inl, inr, Bool-cases, Option-cases, ◌∙◌,
}
use mathlib.Core.Path.{subst}
use sweetops.Int.{ℤ, pos, ◌≤ℤ◌, ◌<ℤ◌, leb_ℤ}
use sweetops.Inventory.Books.{All}
use sweetops.Inventory.Lifecycle.{insert_id, lock_order}
use sweetops.Payment.Model.{Order, Ledger}
use sweetops.Payment.Summary.{outstanding}
use sweetops.Payment.Collect.{
  Locked, Allocations, is_refunded, rows_of, allocate_exact, allocate_all, allocate,
}

-- Rows in ascending order.
abbrev pub IsAscending : List ℕ → Type 0
IsAscending [] = Unit
IsAscending (i ∷ is) = All (λ j. i < j) is × IsAscending is

below_insert :
    (k i : ℕ) (js : List ℕ) → k < i → All (λ j. k < j) js → All (λ j. k < j) (insert_id i js)
unfolding insert_id
below_insert k i [] h hs = (h, tt)
below_insert k i (j ∷ js) h (hj, hs) = elim (Bool-cases (i == j)) [
  | inl same ↦ rw same (hj, hs)
  | inr other ↦ elim (Bool-cases (ltb i j)) [
    | inl less ↦ rw (other, less) (h, (hj, hs))
    | inr more ↦ rw (other, more) (hj, below_insert k i js h hs)
  ]
]

below-All : (k i : ℕ) (js : List ℕ) → k < i → All (λ j. i < j) js → All (λ j. k < j) js
below-All k i [] h hs = tt
below-All k i (j ∷ js) h (hj, hs) = (omega arith, below-All k i js h hs)

insert_id-IsAscending : (i : ℕ) (js : List ℕ) → IsAscending js → IsAscending (insert_id i js)
unfolding insert_id
insert_id-IsAscending i [] h = (tt, tt)
insert_id-IsAscending i (j ∷ js) (hj, h) = elim (Bool-cases (i == j)) [
  | inl same ↦ rw same (hj, h)
  | inr other ↦ elim (Bool-cases (ltb i j)) [
    | inl less ↦
        let below : i < j = ground arith in
        rw (other, less) ((below, below-All i j js below hj), (hj, h))
    | inr more ↦
        let above : j < i = ground arith in
        rw (other, more) (below_insert j i js above hj, insert_id-IsAscending i js h)
  ]
]

pub lock_order-IsAscending : (is : List ℕ) → IsAscending (lock_order is)
unfolding lock_order
lock_order-IsAscending [] = tt
lock_order-IsAscending (i ∷ is) =
    insert_id-IsAscending i (lock_order is) (lock_order-IsAscending is)

-- What will be paid: for different orders, each as its row says, nothing negative.
abbrev pub AreDue : Ledger → Allocations → Type 0
AreDue led [] = Unit
AreDue led ((id, o, amount) ∷ rest) =
    (led.orders id ≡ some o) × (pos 0 ≤ℤ amount) × All (λ e. id < e.0) rest × AreDue led rest

abbrev pub AreHeld : Ledger → Locked → Type 0
AreHeld led [] = Unit
AreHeld led ((id, o) ∷ rest) =
    (led.orders id ≡ some o) × All (λ e. id < e.0) rest × AreHeld led rest

pub rows_of-none :
    (led : Ledger) (id : ℕ) (ids : List ℕ)
    → led.orders id ≡ none
    → rows_of led (id ∷ ids) ≡ rows_of led ids
unfolding rows_of
rows_of-none led id ids e = rw (e, rows_of) refl

pub rows_of-some :
    (led : Ledger) (id : ℕ) (ids : List ℕ) (o : Order)
    → led.orders id ≡ some o
    → rows_of led (id ∷ ids) ≡ (id, o) ∷ rows_of led ids
unfolding rows_of
rows_of-some led id ids o e = rw (e, rows_of) refl

pub rows_above :
    (k : ℕ) (led : Ledger) (ids : List ℕ)
    → All (λ j. k < j) ids
    → All (λ e. k < e.0) (rows_of led ids)
unfolding rows_of
rows_above k led [] h = tt
rows_above k led (id ∷ ids) (h, hs) = elim (Option-cases (led.orders id)) [
  | inl e ↦ rw (rows_of-none led id ids e) (rows_above k led ids hs)
  | inr (o, e) ↦ rw (rows_of-some led id ids o e) (h, rows_above k led ids hs)
]

-- The locked rows are those of a later ledger that kept them.
pub rows_of-AreHeld :
    (led later : Ledger) (ids : List ℕ)
    → All (λ id. later.orders id ≡ led.orders id) ids
    → IsAscending ids
    → AreHeld later (rows_of led ids)
unfolding rows_of
rows_of-AreHeld led later [] kept up = tt
rows_of-AreHeld led later (id ∷ ids) (k, kept) (above, up) = elim (Option-cases (led.orders id)) [
  | inl e ↦ rw (rows_of-none led id ids e) (rows_of-AreHeld led later ids kept up)
  | inr (o, e) ↦
      rw (rows_of-some led id ids o e)
        (k ∙ e, rows_above id led ids above, rows_of-AreHeld led later ids kept up)
]

-- An order of a whole-table settlement is passed over, or its outstanding balance is allocated.
pub allocate_all_step :
    (guarded : Bool) (id : ℕ) (o : Order) (rest : Locked) (as' : Allocations)
    → allocate_all guarded ((id, o) ∷ rest) ≡ ok as'
    → ((leb_ℤ (outstanding o) (pos 0) ≡ true) × (allocate_all guarded rest ≡ ok as'))
      ⊎ ((others : Allocations) × (allocate_all guarded rest ≡ ok others)
          × (pos 0 ≤ℤ outstanding o)
          × (as' ≡ (id, o, outstanding o) ∷ others))
unfolding allocate_all
allocate_all_step guarded id o rest as' h = elim (Bool-cases (leb_ℤ (outstanding o) (pos 0))) [
  | inl zero_left ↦ inl (zero_left, rw (zero_left, allocate_all) at h)
  | inr owed ↦
      let (_, _, h1) =
        >>=-eq-ok (raise_if (guarded && is_refunded o.refund_status) 409 refunded_recollect)
          (λ _. allocate_all guarded rest >>= λ others. ok ((id, o, outstanding o) ∷ others))
          (rw (owed, allocate_all) at h) in
      let (others, e, h2) =
        >>=-eq-ok (allocate_all guarded rest) (λ others. ok ((id, o, outstanding o) ∷ others)) h1 in
      inr (others, e, ground arith, ground arith)
]

pub dues_above :
    (k : ℕ) (guarded : Bool) (rows : Locked) (as' : Allocations)
    → allocate_all guarded rows ≡ ok as'
    → All (λ e. k < e.0) rows
    → All (λ e. k < e.0) as'
unfolding allocate_all
dues_above k guarded [] as' h hs = let e : [] ≡ as' = cc in subst (All (λ e. k < e.0)) e tt
dues_above k guarded ((id, o) ∷ rest) as' h (above, hs) =
    elim (allocate_all_step guarded id o rest as' h) [
      | inl (_, h1) ↦ dues_above k guarded rest as' h1 hs
      | inr (others, h1, _, e) ↦ rw e (above, dues_above k guarded rest others h1 hs)
    ]

all_due :
    (led : Ledger) (guarded : Bool) (rows : Locked) (as' : Allocations)
    → allocate_all guarded rows ≡ ok as'
    → AreHeld led rows
    → AreDue led as'
unfolding allocate_all
all_due led guarded [] as' h held = let e : [] ≡ as' = cc in subst (AreDue led) e tt
all_due led guarded ((id, o) ∷ rest) as' h (here, above, held) =
    elim (allocate_all_step guarded id o rest as' h) [
      | inl (_, h1) ↦ all_due led guarded rest as' h1 held
      | inr (others, h1, due, e) ↦ rw e (
        here,
        due,
        dues_above id guarded rest others h1 above,
        all_due led guarded rest others h1 held,
      )
    ]

abbrev pub IsPositive : Option ℤ → Type 0
IsPositive none = Unit
IsPositive (some amount) = pos 0 <ℤ amount

exact_due :
    (led : Ledger) (amount : ℤ) (rows : Locked) (as' : Allocations)
    → pos 0 <ℤ amount
    → allocate_exact amount rows ≡ ok as'
    → AreHeld led rows
    → AreDue led as'
unfolding allocate_exact
exact_due led amount [] as' p h held = cc
exact_due led amount ((id, o) ∷ rest) as' p h (here, _, _) =
    let e : (id, o, amount) ∷ [] ≡ as' = ground arith in
    subst (AreDue led) e (here, ground arith, tt, tt)

pub allocate-AreDue :
    (led : Ledger) (amount : Option ℤ) (guarded : Bool) (rows : Locked) (as' : Allocations)
    → IsPositive amount
    → allocate amount guarded rows ≡ ok as'
    → AreHeld led rows
    → AreDue led as'
unfolding allocate
allocate-AreDue led none guarded rows as' p h held = all_due led guarded rows as' h held
allocate-AreDue led (some amount) guarded rows as' p h held = exact_due led amount rows as' p h held
