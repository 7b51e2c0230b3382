-- ===== src/Payment/Collect/Clearing.antt =====
-- What is left to pay of the locked orders, as _do_collect of
-- apps/api/app/services/payment_service.py pays them one after the other.
use sweetops.Base.{
  ℕ, ◌<◌, ◌≡◌, refl, Bool, true, some, List, [], ◌∷◌, arith, ok, >>=-eq-ok, inl, inr, Option-cases,
  ◌∙◌,
}
use sweetops.Int.{ℤ, pos, ◌+ℤ◌, ◌-ℤ◌, leb_ℤ, -ℤ_parts, +ℤ_parts}
use sweetops.Inventory.Books.{All}
use sweetops.Payment.Model.{Order, Ledger}
use sweetops.Payment.Summary.{net_paid, outstanding, recompute_order_summary}
use sweetops.Payment.Collect.{Locked, Allocations, rows_of, all_found, allocate_all, pay, pay_all}
use sweetops.Payment.Collect.Due.{AreHeld, allocate_all_step, dues_above, rows_of-some}
use sweetops.Payment.Collect.Charge.{charge, charged, pay_step}

-- The order is there, and nothing of it is left to pay.
pub record IsClear (led : Ledger) (id : ℕ) : Type 0 where
  pub order : Order
  pub here : led.orders id ≡ some order
  pub nothing_left : outstanding order ≡ pos 0

outstanding-charge :
    (o : Order) → outstanding (recompute_order_summary (charge o (outstanding o))) ≡ pos 0
unfolding outstanding recompute_order_summary
outstanding-charge o = ground (
  arith,
  -ℤ_parts o.total_amount (net_paid o),
  -ℤ_parts o.paid_amount o.refunded_amount,
  +ℤ_parts o.paid_amount (outstanding o),
  -ℤ_parts (o.paid_amount +ℤ outstanding o) o.refunded_amount,
  -ℤ_parts o.total_amount (o.paid_amount +ℤ outstanding o -ℤ o.refunded_amount),
)

outstanding_none : (o : Order) → leb_ℤ (outstanding o) (pos 0) ≡ true → outstanding o ≡ pos 0
unfolding outstanding
outstanding_none o h = ground arith

-- Paying later orders leaves an order as it is.
pay_all_below :
    (settlement k : ℕ) (as' : Allocations) (led led' : Ledger)
    → All (λ e. k < e.0) as'
    → pay_all settlement as' led ≡ ok led'
    → led'.orders k ≡ led.orders k
unfolding pay_all
pay_all_below settlement k [] led led' above h = let e : led ≡ led' = cc in rw e refl
pay_all_below settlement k ((id, o, amount) ∷ rest) led led' (more, above) h =
    let (led1, e, h1) =
      >>=-eq-ok (pay settlement id o amount led) (λ x. pay_all settlement rest x) h in
    let (_, e1) = pay_step settlement id o amount led led1 e in
    let after = charged settlement id o amount led in
    let same = pay_all_below settlement k rest after led' above (rw e1 at h1) in same ∙ ground arith

held_kept :
    (settlement id : ℕ) (o : Order) (amount : ℤ) (led : Ledger) (rest : Locked)
    → All (λ e. id < e.0) rest
    → AreHeld led rest
    → AreHeld (charged settlement id o amount led) rest
held_kept settlement id o amount led [] above held = tt
held_kept settlement id o amount led ((j, p) ∷ rest) (less, above) (here, up, held) =
    (ground (arith, here), up, held_kept settlement id o amount led rest above held)

pub rows-IsClear :
    (settlement : ℕ) (guarded : Bool) (rows : Locked) (as' : Allocations) (led led' : Ledger)
    → allocate_all guarded rows ≡ ok as'
    → AreHeld led rows
    → pay_all settlement as' led ≡ ok led'
    → All (λ e. IsClear led' e.0) rows
unfolding pay_all
rows-IsClear settlement guarded [] as' led led' h held paid_all = tt
rows-IsClear settlement guarded ((id, o) ∷ rest) as' led led' h (here, above, held) paid_all =
    elim (allocate_all_step guarded id o rest as' h) [
      | inl (zero_left, h1) ↦ (
        record {
          order = o;
          here =
              pay_all_below settlement id as' led led' (dues_above id guarded rest as' h1 above)
                paid_all
              ∙ here;
          nothing_left = outstanding_none o zero_left;
        },
        rows-IsClear settlement guarded rest as' led led' h1 held paid_all,
      )
      | inr (others, h1, _, e) ↦
          let amount = outstanding o in
          let (led1, f, h2) =
            >>=-eq-ok (pay settlement id o amount led) (λ x. pay_all settlement others x)
              (rw (e, pay_all) at paid_all) in
          let (_, f1) = pay_step settlement id o amount led led1 f in
          let after = charged settlement id o amount led in
          let h3 = rw f1 at h2 in
          (
            record {
              order = recompute_order_summary (charge o amount);
              here =
                  pay_all_below settlement id others after led'
                    (dues_above id guarded rest others h1 above) h3
                  ∙ ground arith;
              nothing_left = outstanding-charge o;
            },
            rows-IsClear settlement guarded rest others after led' h1
                (held_kept settlement id o amount led rest above held) h3,
          )
    ]

-- Every id that was asked for has its row among the locked ones.
pub ids-IsClear :
    (led led' : Ledger) (ids : List ℕ)
    → all_found led ids ≡ true
    → All (λ e. IsClear led' e.0) (rows_of led ids)
    → All (IsClear led') ids
unfolding all_found
ids-IsClear led led' [] found h = tt
ids-IsClear led led' (id ∷ ids) found h = elim (Option-cases (led.orders id)) [
  | inl e ↦ absurd (ground arith)
  | inr (o, e) ↦
      let (first, rest) = rw (rows_of-some led id ids o e) at h in
      (first, ids-IsClear led led' ids (rw (e, all_found) at found) rest)
]
