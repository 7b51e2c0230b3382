-- ===== src/Payment/Collect/Charge.antt =====
-- Charging the orders that are due, in _do_collect of apps/api/app/services/payment_service.py: the
-- allocations and the paid amounts of the ledger, step by step.
use sweetops.Base.{
  ℕ, suc, ◌<◌, ◌≡◌, refl, some, [], ◌∷◌, arith, ◌==◌, ok, >>=-eq-ok, inl, inr, Bool-cases,
  Option-cases, sym,
}
use mathlib.Core.Path.{subst}
use sweetops.Int.{ℤ, pos, ◌+ℤ◌, ◌≤ℤ◌, ◌≈ℤ◌, int_laws}
use sweetops.Text.{Text}
use sweetops.Inventory.Books.{All}
use sweetops.Payment.Model.{Order, PaymentSettlement, Ledger, set_order, allocated}
use sweetops.Payment.Summary.{IsSound, net_paid, recompute_order_summary}
use sweetops.Payment.Collect.{
  Receipt, Collection, Allocations, pay, pay_all, settle, find_settlement_by_key,
  resolve_settlement_replay, settlement_row, gross,
}
use sweetops.Payment.Collect.Due.{AreDue}

-- Every order's `paid_amount` is the sum of its allocations, and its money is sound.
pub record IsBalanced (led : Ledger) : Type 0 where
  pub paid_is_allocated :
      (id : ℕ) (o : Order) → led.orders id ≡ some o → o.paid_amount ≈ℤ allocated led.allocations id
  pub sound : (id : ℕ) (o : Order) → led.orders id ≡ some o → IsSound o

-- The ledger after an order is charged.
abbrev pub charge : Order → ℤ → Order
charge o amount = record o { paid_amount = o.paid_amount +ℤ amount }

abbrev pub charged : ℕ → ℕ → Order → ℤ → Ledger → Ledger
charged settlement id o amount led = record led {
  orders = set_order id (recompute_order_summary (charge o amount)) led.orders;
  allocations =
      record { id = led.next_id; settlement_id = settlement; order_id = id; amount = amount }
      ∷ led.allocations;
  next_id = suc led.next_id;
}

pub pay_step :
    (settlement id : ℕ) (o : Order) (amount : ℤ) (led led' : Ledger)
    → pay settlement id o amount led ≡ ok led'
    → (net_paid (charge o amount) ≤ℤ o.total_amount) × (led' ≡ charged settlement id o amount led)
unfolding pay
pay_step settlement id o amount led led' h = (ground arith, ground arith)

charge-IsSound :
    (o : Order) (amount : ℤ)
    → IsSound o
    → pos 0 ≤ℤ amount
    → net_paid (charge o amount) ≤ℤ o.total_amount
    → IsSound (recompute_order_summary (charge o amount))
unfolding recompute_order_summary
charge-IsSound o amount h p fits = record {
  refunded_nonneg = h.refunded_nonneg;
  refunded_covered = omega (int_laws, h.refunded_covered);
  not_overpaid = fits;
}

charged-IsBalanced :
    (settlement id : ℕ) (o : Order) (amount : ℤ) (led : Ledger)
    → led.orders id ≡ some o
    → pos 0 ≤ℤ amount
    → net_paid (charge o amount) ≤ℤ o.total_amount
    → IsBalanced led
    → IsBalanced (charged settlement id o amount led)
unfolding recompute_order_summary
charged-IsBalanced settlement id o amount led here p fits b = record {
  paid_is_allocated = λ k r e. elim (Bool-cases (id == k)) [
    | inl same ↦
        let e' : some (recompute_order_summary (charge o amount)) ≡ some r = rw same at e in
        let q : o.paid_amount +ℤ amount ≡ r.paid_amount = cc in
        let i : id ≡ k = ground arith in
        let before = rw i at (b.paid_is_allocated id o here) in
        rw (same, sym q) (omega (int_laws, before))
    | inr other ↦ rw other (omega (int_laws, b.paid_is_allocated k r (rw other at e)))
  ];
  sound = λ k r e. elim (Bool-cases (id == k)) [
    | inl same ↦
        let e' : some (recompute_order_summary (charge o amount)) ≡ some r = rw same at e in
        subst IsSound (cc) (charge-IsSound o amount (b.sound id o here) p fits)
    | inr other ↦ b.sound k r (rw other at e)
  ];
}

dues_kept :
    (settlement id : ℕ) (o : Order) (amount : ℤ) (led : Ledger) (rest : Allocations)
    → All (λ e. id < e.0) rest
    → AreDue led rest
    → AreDue (charged settlement id o amount led) rest
dues_kept settlement id o amount led [] above due = tt
dues_kept settlement id o amount led ((j, p, due_amount) ∷ rest) (less, above) (here, d, up, due) =
    (ground (arith, here), d, up, dues_kept settlement id o amount led rest above due)

pay_all-IsBalanced :
    (settlement : ℕ) (as' : Allocations) (led led' : Ledger)
    → AreDue led as'
    → IsBalanced led
    → pay_all settlement as' led ≡ ok led'
    → IsBalanced led'
unfolding pay_all
pay_all-IsBalanced settlement [] led led' due b h = let e : led ≡ led' = cc in subst IsBalanced e b
pay_all-IsBalanced settlement ((id, o, amount) ∷ rest) led led' (here, p, above, due) b h =
    let (led1, e, h1) =
      >>=-eq-ok (pay settlement id o amount led) (λ x. pay_all settlement rest x) h in
    let (fits, e1) = pay_step settlement id o amount led led1 e in
    let after = charged settlement id o amount led in
    pay_all-IsBalanced settlement rest after led'
      (dues_kept settlement id o amount led rest above due)
      (charged-IsBalanced settlement id o amount led here p fits b) (rw e1 at h1)

-- Rows of orders and of allocations alone matter.
IsBalanced-of_rows :
    (led led' : Ledger)
    → led'.orders ≡ led.orders
    → led'.allocations ≡ led.allocations
    → IsBalanced led
    → IsBalanced led'
IsBalanced-of_rows led led' e f b = record {
  paid_is_allocated = λ id o here. rw f (b.paid_is_allocated id o (rw e at here));
  sound = λ id o here. b.sound id o (rw e at here);
}

pub replay-IsBalanced :
    (row : PaymentSettlement) (request : Text) (user : ℕ) (led : Ledger) (r : Receipt × Ledger)
    → IsBalanced led
    → resolve_settlement_replay row request user led ≡ ok r
    → IsBalanced r.1
unfolding resolve_settlement_replay
replay-IsBalanced row request user led r b h =
    IsBalanced-of_rows led r.1 (ground arith) (ground arith) b

dues_of_rows :
    (led led' : Ledger)
    → led'.orders ≡ led.orders
    → (as' : Allocations) → AreDue led as'
    → AreDue led' as'
dues_of_rows led led' e [] due = tt
dues_of_rows led led' e ((id, o, amount) ∷ rest) (here, p, above, due) =
    (rw e here, p, above, dues_of_rows led led' e rest due)

pub settle-IsBalanced :
    (c : Collection) (as' : Allocations) (led : Ledger) (r : Receipt × Ledger)
    → AreDue led as'
    → IsBalanced led
    → settle c as' led ≡ ok r
    → IsBalanced r.1
unfolding settle
settle-IsBalanced c as' led r due b h =
    elim (Option-cases (find_settlement_by_key led c.store_id c.key_hash)) [
      | inr (winner, e) ↦
          replay-IsBalanced winner c.request_hash c.user_id led r b (rw (e, settle) at h)
      | inl e ↦
          let opened = record led {
            settlements = settlement_row c (gross as') led.next_id ∷ led.settlements;
            next_id = suc led.next_id;
          } in
          let (led', e', h') = >>=-eq-ok (pay_all led.next_id as' opened) _ (rw (e, settle) at h) in
          let opened_due = dues_of_rows led opened refl as' due in
          let b' =
            pay_all-IsBalanced led.next_id as' opened led' opened_due
              (IsBalanced-of_rows led opened refl refl b) e' in
          IsBalanced-of_rows led' r.1 (ground arith) (ground arith) b'
    ]
