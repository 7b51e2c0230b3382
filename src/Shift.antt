-- ===== src/Shift.antt =====
-- The cashier shifts, of apps/api/app/services/cashier_shift_service.py and models/cashier_shift.py:
-- compute_shift_totals, the ledger's totals for one shift. A payment row stands with its time,
-- `completed_at` or `created_at`; times are in microseconds of the database's clock. Every
-- settlement is COMPLETED, since no code writes another status.
pub mod Cash
pub mod Close
pub mod Commands
pub mod OneOpen
pub mod Sums
use sweetops.Base.{
  ℕ, Bool, true, false, ◌&&◌, Option, none, some, List, [], ◌∷◌, ◌==◌, leb, ltb, if◌then◌else◌,
  find,
}
use sweetops.Int.{ℤ, pos, ◌+ℤ◌, ◌-ℤ◌}
use sweetops.Text.{Text, text_eq}
use sweetops.Digest.{codes}
use sweetops.Payment.Model.{PaymentSettlement, PaymentRefund}

pub data ShiftStatus : Type 0 where
  opened closed : ShiftStatus

pub record ShiftTotals : Type 0 where
  pub cash_payments_amount : ℤ
  pub card_payments_amount : ℤ
  pub cash_refunds_amount : ℤ
  pub card_refunds_amount : ℤ
  pub gross_payments_amount : ℤ
  pub total_refunds_amount : ℤ
  pub net_collected_amount : ℤ

-- The columns that a close sets, and that are NULL until then.
pub record Snapshot : Type 0 where
  pub closed_at : ℕ
  pub counted_closing_cash_amount : ℤ
  pub close_note : Option Text
  pub totals : ShiftTotals
  pub expected_closing_cash_amount : ℤ
  pub cash_discrepancy_amount : ℤ
  pub closed_idempotency_key_hash : Text
  pub closed_request_hash : Text

pub record CashierShift : Type 0 where
  pub id : ℕ
  pub store_id : ℕ
  pub cashier_user_id : ℕ
  pub status : ShiftStatus
  pub opened_at : ℕ
  pub opening_cash_amount : ℤ
  pub open_note : Option Text
  pub opened_idempotency_key_hash : Text
  pub opened_request_hash : Text
  pub snapshot : Option Snapshot

pub data ShiftAction : Type 0 where
  cashier_shift_opened cashier_shift_closed : ShiftAction

pub record ShiftAudit : Type 0 where
  pub action : ShiftAction
  pub entity_id : ℕ
  pub actor_id : ℕ

-- The rows that the service reads and writes; it only reads the payments.
pub record Drawer : Type 0 where
  pub settlements : List (PaymentSettlement × ℕ)
  pub refunds : List (PaymentRefund × ℕ)
  pub shifts : List CashierShift
  pub audits : List ShiftAudit
  pub next_id : ℕ

-- opened_at ≤ t < closed_at
abbrev pub in_window : ℕ → ℕ → ℕ → Bool
in_window opened_at closed_at t = leb opened_at t && ltb t closed_at

-- The rows of a sum: a payment method and an amount.
abbrev pub Amounts : Type 0
Amounts = List (Text × ℤ)

unfoldable pub pay_rows : ℕ → ℕ → ℕ → ℕ → List (PaymentSettlement × ℕ) → Amounts
pay_rows store cashier opened_at closed_at [] = []
pay_rows store cashier opened_at closed_at ((s, t) ∷ rows) =
    let rest = pay_rows store cashier opened_at closed_at rows in
    if s.store_id == store && s.cashier_user_id == cashier && in_window opened_at closed_at t
    then (s.payment_method, s.gross_amount) ∷ rest
    else rest

abbrev pub has_id : ℕ → PaymentSettlement × ℕ → Bool
has_id id row = row.0.id == id

-- A refund is joined with its settlement, and counts for the cashier who collected the money.
unfoldable pub ref_rows :
    List (PaymentSettlement × ℕ) → ℕ → ℕ → ℕ → ℕ → List (PaymentRefund × ℕ) → Amounts
ref_rows settlements store cashier opened_at closed_at [] = []
ref_rows settlements store cashier opened_at closed_at ((r, t) ∷ rows) =
    let rest = ref_rows settlements store cashier opened_at closed_at rows in
    elim (find (has_id r.settlement_id) settlements) [
      | none ↦ rest
      | some s ↦
          if r.store_id == store
            && s.0.cashier_user_id == cashier
            && in_window opened_at closed_at t
          then (s.0.payment_method, r.amount) ∷ rest
          else rest
    ]

-- GROUP BY payment_method, with the sum of each group.
unfoldable pub add_method : Text → ℤ → Amounts → Amounts
add_method method amount [] = (method, amount) ∷ []
add_method method amount ((m, total) ∷ groups) =
    if text_eq method m
    then (m, total +ℤ amount) ∷ groups
    else (m, total) ∷ add_method method amount groups

unfoldable pub group_by_method : Amounts → Amounts
group_by_method [] = []
group_by_method ((method, amount) ∷ rows) = add_method method amount (group_by_method rows)

-- `payments.get(method, ZERO)` and `sum(payments.values(), ZERO)`
unfoldable pub get_method : Text → Amounts → ℤ
get_method method [] = pos 0
get_method method ((m, total) ∷ groups) =
    if text_eq method m then total else get_method method groups

unfoldable pub sum_values : Amounts → ℤ
sum_values [] = pos 0
sum_values ((_, total) ∷ groups) = total +ℤ sum_values groups

-- `compute_shift_totals`
unfoldable pub compute_shift_totals : Drawer → ℕ → ℕ → ℕ → ℕ → ShiftTotals
compute_shift_totals d store cashier opened_at closed_at =
    let payments = group_by_method (pay_rows store cashier opened_at closed_at d.settlements) in
    let refunds =
      group_by_method (ref_rows d.settlements store cashier opened_at closed_at d.refunds) in
    record {
      cash_payments_amount = get_method (codes "CASH") payments;
      card_payments_amount = get_method (codes "CARD") payments;
      cash_refunds_amount = get_method (codes "CASH") refunds;
      card_refunds_amount = get_method (codes "CARD") refunds;
      gross_payments_amount = sum_values payments;
      total_refunds_amount = sum_values refunds;
      net_collected_amount = sum_values payments -ℤ sum_values refunds;
    }
