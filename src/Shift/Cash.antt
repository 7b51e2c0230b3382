-- ===== src/Shift/Cash.antt =====
-- The cash of a shift, counted row by row against compute_shift_totals of
-- apps/api/app/services/cashier_shift_service.py.
use sweetops.Base.{
  ℕ, refl, Bool, true, false, ◌&&◌, ◌==◌, none, some, List, [], ◌∷◌, if◌then◌else◌, find, inl, inr,
  Option-cases, Bool-cases,
}
use sweetops.Int.{ℤ, pos, ◌+ℤ◌, ◌≈ℤ◌, int_laws}
use sweetops.Text.{Text, text_eq}
use sweetops.Digest.{codes}
use sweetops.Payment.Model.{PaymentSettlement, PaymentRefund}
use sweetops.Shift.{Amounts, Drawer, compute_shift_totals, in_window, pay_rows, has_id, ref_rows}
use sweetops.Shift.Sums.{sum_method, get-group_by_method}

-- The cash that a cashier took in a window, and the cash that was given back of their collections.
abbrev pub cash_collected : ℕ → ℕ → ℕ → ℕ → List (PaymentSettlement × ℕ) → ℤ
cash_collected store cashier from to [] = pos 0
cash_collected store cashier from to ((s, t) ∷ rows) =
    (if text_eq (codes "CASH") s.payment_method
        && (s.store_id == store && s.cashier_user_id == cashier && in_window from to t)
      then s.gross_amount
      else pos 0)
    +ℤ cash_collected store cashier from to rows

abbrev pub cash_of_refund : List (PaymentSettlement × ℕ) → ℕ → ℕ → ℕ → ℕ → PaymentRefund × ℕ → ℤ
cash_of_refund settlements store cashier from to (r, t) =
    elim (find (has_id r.settlement_id) settlements) [
      | none ↦ pos 0
      | some s ↦
          if text_eq (codes "CASH") s.0.payment_method
            && (r.store_id == store && s.0.cashier_user_id == cashier && in_window from to t)
          then r.amount
          else pos 0
    ]

abbrev pub cash_returned :
    List (PaymentSettlement × ℕ) → ℕ → ℕ → ℕ → ℕ → List (PaymentRefund × ℕ) → ℤ
cash_returned settlements store cashier from to [] = pos 0
cash_returned settlements store cashier from to (row ∷ rows) =
    cash_of_refund settlements store cashier from to row
    +ℤ cash_returned settlements store cashier from to rows

sum_method-if :
    (method m : Text) (x total : ℤ) (counted : Bool) (rest : Amounts)
    → sum_method method rest ≈ℤ total
    → sum_method method (if counted then (m, x) ∷ rest else rest)
      ≈ℤ (if text_eq method m && counted then x else pos 0) +ℤ total
sum_method-if method m x total true rest h = elim (Bool-cases (text_eq method m)) [
  | inl c ↦ rw c (omega (int_laws, h))
  | inr c ↦ rw c (omega (int_laws, h))
]
sum_method-if method m x total false rest h = elim (Bool-cases (text_eq method m)) [
  | inl c ↦ rw c (omega (int_laws, h))
  | inr c ↦ rw c (omega (int_laws, h))
]

module _ (store cashier from to : ℕ) where
  pay_rows-cash :
      (rows : List (PaymentSettlement × ℕ))
      → sum_method (codes "CASH") (pay_rows store cashier from to rows)
        ≈ℤ cash_collected store cashier from to rows
  unfolding pay_rows
  pay_rows-cash [] = refl
  pay_rows-cash ((s, t) ∷ rows) =
      sum_method-if (codes "CASH") s.payment_method s.gross_amount _
        (s.store_id == store && s.cashier_user_id == cashier && in_window from to t) _
        (pay_rows-cash rows)

  ref_rows-cash :
      (settlements : List (PaymentSettlement × ℕ)) (rows : List (PaymentRefund × ℕ))
      → sum_method (codes "CASH") (ref_rows settlements store cashier from to rows)
        ≈ℤ cash_returned settlements store cashier from to rows
  unfolding ref_rows
  ref_rows-cash settlements [] = refl
  ref_rows-cash settlements ((r, t) ∷ rows) =
      let ih = ref_rows-cash settlements rows in
      elim (Option-cases (find (has_id r.settlement_id) settlements)) [
        | inl f ↦ rw (f, ref_rows) (rw (f, cash_of_refund) (omega (int_laws, ih)))
        | inr (s, f) ↦
            rw (f, ref_rows)
              (rw (f, cash_of_refund)
                (sum_method-if (codes "CASH") s.0.payment_method r.amount _
                  (r.store_id == store && s.0.cashier_user_id == cashier && in_window from to t) _
                  ih))
      ]

  pub cash_payments-cash_collected :
      (d : Drawer)
      → (compute_shift_totals d store cashier from to).cash_payments_amount
        ≈ℤ cash_collected store cashier from to d.settlements
  unfolding compute_shift_totals
  cash_payments-cash_collected d = omega (
    int_laws,
    pay_rows-cash d.settlements,
    get-group_by_method (codes "CASH") (pay_rows store cashier from to d.settlements),
  )

  pub cash_refunds-cash_returned :
      (d : Drawer)
      → (compute_shift_totals d store cashier from to).cash_refunds_amount
        ≈ℤ cash_returned d.settlements store cashier from to d.refunds
  unfolding compute_shift_totals
  cash_refunds-cash_returned d = omega (
    int_laws,
    ref_rows-cash d.settlements d.refunds,
    get-group_by_method (codes "CASH") (ref_rows d.settlements store cashier from to d.refunds),
  )
