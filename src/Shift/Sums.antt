-- ===== src/Shift/Sums.antt =====
-- The totals of compute_shift_totals of apps/api/app/services/cashier_shift_service.py: grouping
-- against plain sums, and windows that follow one another.
use sweetops.Base.{
  ℕ, ◌≤◌, ◌≡◌, refl, true, false, ◌&&◌, List, [], ◌∷◌, arith, ◌==◌, if◌then◌else◌, find, inl, inr,
  Bool-cases, Option-cases, sym, ◌∙◌,
}
use sweetops.Int.{ℤ, pos, ◌+ℤ◌, ◌≈ℤ◌, int_laws}
use sweetops.Text.{Text, text_eq, text_eq_refl, text_eq→eq}
use sweetops.Digest.{codes}
use sweetops.Payment.Model.{PaymentSettlement, PaymentRefund}
use sweetops.Shift.{
  Amounts, Drawer, ShiftTotals, in_window, pay_rows, has_id, ref_rows, add_method, group_by_method,
  get_method, sum_values, compute_shift_totals,
}

-- The plain sums: of all rows, and of one method's.
abbrev pub sum_all : Amounts → ℤ
sum_all [] = pos 0
sum_all ((_, x) ∷ rows) = x +ℤ sum_all rows

abbrev pub sum_method : Text → Amounts → ℤ
sum_method method [] = pos 0
sum_method method ((m, x) ∷ rows) =
    (if text_eq method m then x else pos 0) +ℤ sum_method method rows

apart_of_same : (method k m : Text) → method ≡ k → text_eq m k ≡ false → text_eq method m ≡ false
apart_of_same method k m e other = elim (Bool-cases (text_eq method m)) [
  | inr apart ↦ apart
  | inl same ↦
      let e' = text_eq→eq method m same in
      let r = text_eq_refl m in
      let k' : k ≡ m = sym e ∙ e' in let q : text_eq m m ≡ false = rw k' at other in absurd (cc)
]

get-add_method :
    (method m : Text) (x : ℤ) (groups : Amounts)
    → get_method method (add_method m x groups)
      ≈ℤ get_method method groups +ℤ (if text_eq method m then x else pos 0)
unfolding get_method add_method
get-add_method method m x [] = grind int_laws
get-add_method method m x ((k, total) ∷ groups) = elim (Bool-cases (text_eq m k)) [
  | inl same ↦
      let e = text_eq→eq m k same in
      rw (same, e)
        (elim (Bool-cases (text_eq method k)) [
          | inl mine ↦ rw mine (omega int_laws)
          | inr apart ↦ rw apart (omega int_laws)
        ])
  | inr other ↦ rw other (elim (Bool-cases (text_eq method k)) [
    | inr apart ↦ rw apart (get-add_method method m x groups)
    | inl mine ↦
        let e = text_eq→eq method k mine in
        let apart : text_eq method m ≡ false = apart_of_same method k m e other in
        rw (mine, apart) (omega int_laws)
  ])
]

pub get-group_by_method :
    (method : Text) (rows : Amounts)
    → get_method method (group_by_method rows) ≈ℤ sum_method method rows
unfolding group_by_method get_method
get-group_by_method method [] = refl
get-group_by_method method ((m, x) ∷ rows) =
    omega
      (int_laws, get-add_method method m x (group_by_method rows), get-group_by_method method rows)

sum-add_method :
    (m : Text) (x : ℤ) (groups : Amounts)
    → sum_values (add_method m x groups) ≈ℤ sum_values groups +ℤ x
unfolding sum_values add_method
sum-add_method m x [] = omega int_laws
sum-add_method m x ((k, total) ∷ groups) = elim (Bool-cases (text_eq m k)) [
  | inl same ↦ rw same (omega int_laws)
  | inr other ↦ rw other (omega (int_laws, sum-add_method m x groups))
]

pub sum-group_by_method : (rows : Amounts) → sum_values (group_by_method rows) ≈ℤ sum_all rows
unfolding group_by_method sum_values
sum-group_by_method [] = refl
sum-group_by_method ((m, x) ∷ rows) =
    omega (int_laws, sum-add_method m x (group_by_method rows), sum-group_by_method rows)

-- `c` is `a` and `b` together.
pub record Adds (a b c : ShiftTotals) : Type 0 where
  pub cash_payments : c.cash_payments_amount ≈ℤ a.cash_payments_amount +ℤ b.cash_payments_amount
  pub card_payments : c.card_payments_amount ≈ℤ a.card_payments_amount +ℤ b.card_payments_amount
  pub cash_refunds : c.cash_refunds_amount ≈ℤ a.cash_refunds_amount +ℤ b.cash_refunds_amount
  pub card_refunds : c.card_refunds_amount ≈ℤ a.card_refunds_amount +ℤ b.card_refunds_amount
  pub gross_payments : c.gross_payments_amount ≈ℤ a.gross_payments_amount +ℤ b.gross_payments_amount
  pub total_refunds : c.total_refunds_amount ≈ℤ a.total_refunds_amount +ℤ b.total_refunds_amount
  pub net_collected : c.net_collected_amount ≈ℤ a.net_collected_amount +ℤ b.net_collected_amount

-- Rows of `c` are those of `a` and of `b`, in some order.
record AddsUp (a b c : Amounts) : Type 0 where
  methods : (m : Text) → sum_method m c ≈ℤ sum_method m a +ℤ sum_method m b
  all : sum_all c ≈ℤ sum_all a +ℤ sum_all b

adds_left : (m : Text) (x : ℤ) (a b c : Amounts) → AddsUp a b c → AddsUp ((m, x) ∷ a) b ((m, x) ∷ c)
adds_left m x a b c h = record {
  methods = λ k. omega (int_laws, h.methods k);
  all = omega (int_laws, h.all);
}

adds_right :
    (m : Text) (x : ℤ) (a b c : Amounts) → AddsUp a b c → AddsUp a ((m, x) ∷ b) ((m, x) ∷ c)
adds_right m x a b c h = record {
  methods = λ k. omega (int_laws, h.methods k);
  all = omega (int_laws, h.all);
}

-- A time of the whole window stands in exactly one of its halves.
data Falls (from mid to t : ℕ) : Type 0 where
  first :
      in_window from mid t ≡ true
      → in_window mid to t ≡ false
      → in_window from to t ≡ true
      → Falls from mid to t
  second :
      in_window from mid t ≡ false
      → in_window mid to t ≡ true
      → in_window from to t ≡ true
      → Falls from mid to t
  outside :
      in_window from mid t ≡ false
      → in_window mid to t ≡ false
      → in_window from to t ≡ false
      → Falls from mid to t

falls : (from mid to t : ℕ) → from ≤ mid → mid ≤ to → Falls from mid to t
falls from mid to t p q = elim (Bool-cases (in_window from mid t)) [
  | inl a ↦ first a (ground arith) (ground arith)
  | inr a ↦ elim (Bool-cases (in_window mid to t)) [
    | inl b ↦ second a b (ground arith)
    | inr b ↦ outside a b (ground arith)
  ]
]

module _ (store cashier from mid to : ℕ) (p : from ≤ mid) (q : mid ≤ to) where
  pay_rows-AddsUp :
      (rows : List (PaymentSettlement × ℕ))
      → AddsUp
          (pay_rows store cashier from mid rows)
          (pay_rows store cashier mid to rows)
          (pay_rows store cashier from to rows)
  unfolding pay_rows
  pay_rows-AddsUp [] = record { methods = λ m. omega int_laws; all = omega int_laws }
  pay_rows-AddsUp ((s, t) ∷ rows) =
      let ih = pay_rows-AddsUp rows in
      elim (Bool-cases (s.store_id == store && s.cashier_user_id == cashier)) [
        | inr apart ↦ elim (Bool-cases (s.store_id == store)) [
          | inr other ↦ rw other ih
          | inl mine ↦
              let other : (s.cashier_user_id == cashier) ≡ false = ground arith in
              rw (mine, other) ih
        ]
        | inl both ↦
            let a : (s.store_id == store) ≡ true = ground arith in
            let b : (s.cashier_user_id == cashier) ≡ true = ground arith in
            elim (falls from mid to t p q) [
              | first x y z ↦
                  rw (a, b, x, y, z) (adds_left s.payment_method s.gross_amount _ _ _ ih)
              | second x y z ↦
                  rw (a, b, x, y, z) (adds_right s.payment_method s.gross_amount _ _ _ ih)
              | outside x y z ↦ rw (a, b, x, y, z) ih
            ]
      ]

  ref_rows-AddsUp :
      (settlements : List (PaymentSettlement × ℕ)) (rows : List (PaymentRefund × ℕ))
      → AddsUp
          (ref_rows settlements store cashier from mid rows)
          (ref_rows settlements store cashier mid to rows)
          (ref_rows settlements store cashier from to rows)
  unfolding ref_rows
  ref_rows-AddsUp settlements [] = record { methods = λ m. omega int_laws; all = omega int_laws }
  ref_rows-AddsUp settlements ((r, t) ∷ rows) =
      let ih = ref_rows-AddsUp settlements rows in
      elim (Option-cases (find (has_id r.settlement_id) settlements)) [
        | inl e ↦ rw (e, ref_rows) ih
        | inr (s, e) ↦ elim (Bool-cases (r.store_id == store)) [
          | inr other ↦ rw (e, ref_rows) (rw other ih)
          | inl a ↦ elim (Bool-cases (s.0.cashier_user_id == cashier)) [
            | inr other ↦ rw (e, ref_rows) (rw (a, other) ih)
            | inl b ↦ elim (falls from mid to t p q) [
              | first x y z ↦
                  rw (e, ref_rows)
                    (rw (a, b, x, y, z) (adds_left s.0.payment_method r.amount _ _ _ ih))
              | second x y z ↦
                  rw (e, ref_rows)
                    (rw (a, b, x, y, z) (adds_right s.0.payment_method r.amount _ _ _ ih))
              | outside x y z ↦ rw (e, ref_rows) (rw (a, b, x, y, z) ih)
            ]
          ]
        ]
      ]

  grouped :
      (a b c : Amounts) (m : Text)
      → AddsUp a b c
      → get_method m (group_by_method c)
        ≈ℤ get_method m (group_by_method a) +ℤ get_method m (group_by_method b)
  grouped a b c m h = omega (
    int_laws,
    h.methods m,
    get-group_by_method m a,
    get-group_by_method m b,
    get-group_by_method m c,
  )

  summed :
      (a b c : Amounts)
      → AddsUp a b c
      → sum_values (group_by_method c)
        ≈ℤ sum_values (group_by_method a) +ℤ sum_values (group_by_method b)
  summed a b c h =
      omega (int_laws, h.all, sum-group_by_method a, sum-group_by_method b, sum-group_by_method c)

  -- When a cashier's window is cut in two at any moment, each of the seven totals of the whole window
  -- is the sum of those of its parts: a payment or a refund at the cut is counted once, and none is
  -- lost.
  pub compute_shift_totals-Adds :
      (d : Drawer)
      → Adds
          (compute_shift_totals d store cashier from mid)
          (compute_shift_totals d store cashier mid to)
          (compute_shift_totals d store cashier from to)
  unfolding compute_shift_totals
  compute_shift_totals-Adds d =
      let ps = pay_rows-AddsUp d.settlements in
      let rs = ref_rows-AddsUp d.settlements d.refunds in
      record {
        cash_payments = grouped _ _ _ (codes "CASH") ps;
        card_payments = grouped _ _ _ (codes "CARD") ps;
        cash_refunds = grouped _ _ _ (codes "CASH") rs;
        card_refunds = grouped _ _ _ (codes "CARD") rs;
        gross_payments = summed _ _ _ ps;
        total_refunds = summed _ _ _ rs;
        net_collected = omega (int_laws, summed _ _ _ ps, summed _ _ _ rs);
      }
