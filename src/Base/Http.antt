-- ===== src/Base/Http.antt =====
-- The outcome of a handler of apps/api/app/services: a value, or an HTTPException with its status
-- code and the machine code of its detail.
use Prim.Native.Nat.{ℕ}
use mathlib.Core.Path.{◌≡◌, refl}
use mathlib.Core.Bool.{Bool}
use sweetops.Base.Tests.{if◌then◌else◌}

pub data Code : Type 0 where
  idempotency_required idempotency_mismatch reason_required : Code
  invalid_quantity ingredient_not_found stock_not_configured stock_row_missing : Code
  insufficient_on_hand same_store_transfer destination_store_not_found : Code
  insufficient_available stock_count_below_reserved : Code
  threshold_negative threshold_critical_above_minimum threshold_minimum_above_target : Code
  threshold_critical_above_target out_of_stock : Code
  invalid_method invalid_amount order_not_found not_found order_cancelled table_mismatch : Code
  no_balance overpayment refunded_recollect refund_over_balance : Code
  terminal_state invalid_transition undo_no_event undo_window_expired payment_outstanding : Code
  integrity_error internal_error : Code
  qr_required qr_invalid product_unavailable no_ingredients unknown_ingredients : Code
  forbidden requested_over_refundable approved_over_refundable nothing_refundable : Code
  amount_required cancel_blocked_paid already_resolved : Code
  opening_cash_invalid counted_cash_invalid already_closed : Code
  unauthorized origin_rejected csrf_invalid : Code
  product_name_required invalid_price product_name_taken product_not_found : Code
  not_published invalid_sort_order : Code

-- `HTTPException(status_code, detail={"error": code})`; an uncaught exception is a 500.
pub data HttpError : Type 0 where
  http : ℕ → Code → HttpError

pub data Result {ℓ} (A : Type ℓ) : Type ℓ where
  err : HttpError → Result A
  ok : A → Result A

-- `if c: raise HTTPException(...)`
abbrev pub raise_if : Bool → ℕ → Code → Result (Unit {0})
raise_if raised status code = if raised then err (http status code) else ok tt

pub ok_injective {ℓ} : {A : Type ℓ} {a b : A} → ok a ≡ ok b → a ≡ b
ok_injective e = cc

-- An exception ends the handler.
module _ {κ} {B : Type κ} where
  infixl 5 ◌>>=◌ ◌>>◌
  abbrev pub ◌>>=◌ {ℓ} : {A : Type ℓ} → Result A → (A → Result B) → Result B
  err raised >>= next = err raised
  ok value >>= next = next value

  abbrev pub ◌>>◌ : Result (Unit {0}) → Result B → Result B
  checked >> rest = checked >>= λ _. rest

  -- What returned went through its first step.
  pub >>=-eq-ok {ℓ} :
      {A : Type ℓ} (step : Result A) (next : A → Result B) {result : B}
      → step >>= next ≡ ok result
      → (value : A) × (step ≡ ok value) × (next value ≡ ok result)
  >>=-eq-ok (err raised) next returned = cc
  >>=-eq-ok (ok value) next returned = (value, refl, returned)
