-- ===== src/Payment/Collect/Commands.antt =====
-- collect_settlement and collect_order_payment of apps/api/app/services/payment_service.py. The staff
-- session gives `store_id` and `user_id`; the receipts' serialisation is left out.
use sweetops.Base.{
  ℕ, Bool, true, false, not, ◌||◌, Option, none, some, List, [], ◌∷◌, ◌==◌, Result, ok, err, http,
  raise_if, invalid_method, invalid_amount, not_found, ◌>>=◌, ◌>>◌,
}
use sweetops.Int.{ℤ, pos, leb_ℤ}
use sweetops.Text.{Text, text_eq}
use sweetops.Quantity.{Decimal, q2}
use sweetops.Digest.{codes, text, number, numbers, str_amount, canonical}
use sweetops.Inventory.Lifecycle.{lock_order}
use sweetops.Inventory.Commands.{require_key}
use sweetops.Payment.Model.{Order, Ledger}
use sweetops.Payment.Collect.{
  Race, Receipt, Collection, find_settlement_by_key, resolve_settlement_replay, do_collect,
}

-- `SettlementCreateRequest`, with the session and the Idempotency-Key header.
pub record SettlementRequest : Type 0 where
  pub store_id : ℕ
  pub user_id : ℕ
  pub idempotency_key : Option Text
  pub table_id : ℕ
  pub order_ids : List ℕ
  pub payment_method : Text
  pub note : Option Text
  pub terminal_reference : Option Text

-- `OrderPaymentRequest`, likewise.
pub record PaymentRequest : Type 0 where
  pub store_id : ℕ
  pub user_id : ℕ
  pub idempotency_key : Option Text
  pub order_id : ℕ
  pub payment_method : Text
  pub amount : Option Decimal
  pub note : Option Text
  pub terminal_reference : Option Text

-- `_validate_method`
is_method : Text → Bool
is_method m = text_eq m (codes "CASH") || text_eq m (codes "CARD") || text_eq m (codes "OTHER")

unfoldable pub validate_method : Text → Result Text
unfolding is_method
validate_method method = do raise_if (not (is_method method)) 422 invalid_method; ok method

-- `amount = q2(req.amount)`, if there is one, and its check.
unfoldable pub require_amount : Option Decimal → Result (Option ℤ)
unfolding q2
require_amount none = ok none
require_amount (some amount) = do
  raise_if (leb_ℤ (q2 amount) (pos 0)) 422 invalid_amount
  ok (some (q2 amount))

abbrev note_text : Option Text → Text
note_text none = []
note_text (some s) = s

abbrev amount_text : Option ℤ → Text
amount_text none = codes "full"
amount_text (some amount) = str_amount 2 amount

-- `db.get(Order, order_id)`, of the staff's store.
unfoldable pub load_order : Ledger → ℕ → ℕ → Result Order
load_order led store id = elim (led.orders id) [
  | none ↦ err (http 404 not_found)
  | some o ↦ do raise_if (not (o.store_id == store)) 404 not_found; ok o
]

-- `sha256` is hashlib's, over the text's bytes; the currency is DEFAULT_CURRENCY.
module _ (sha256 : Text → Text) where
  abbrev pub settlement_hash : SettlementRequest → Text → Text
  settlement_hash req method = sha256 (
      canonical (
        (codes "cmd", text (codes "settlement"))
        ∷ (codes "table_id", number req.table_id)
        ∷ (codes "order_ids", numbers (lock_order req.order_ids))
        ∷ (codes "method", text method)
        ∷ (codes "currency", text (codes "TRY"))
        ∷ (codes "note", text (note_text req.note))
        ∷ []))

  abbrev pub payment_hash : PaymentRequest → Option ℤ → Text → Text
  payment_hash req amount method = sha256 (
      canonical (
        (codes "cmd", text (codes "order_payment"))
        ∷ (codes "order_id", number req.order_id)
        ∷ (codes "amount", text (amount_text amount))
        ∷ (codes "method", text method)
        ∷ (codes "currency", text (codes "TRY"))
        ∷ (codes "note", text (note_text req.note))
        ∷ []))

  abbrev pub settlement_of : SettlementRequest → Text → Text → Collection
  settlement_of req key method = record {
    store_id = req.store_id;
    user_id = req.user_id;
    table_id = some req.table_id;
    order_ids = req.order_ids;
    method = method;
    note = req.note;
    terminal_reference = req.terminal_reference;
    per_order_amount = none;
    key_hash = sha256 key;
    request_hash = settlement_hash req method;
    guard_refunded_recollect = true;
  }

  abbrev pub payment_of : PaymentRequest → Text → Text → Option ℤ → Order → Collection
  payment_of req key method amount order = record {
    store_id = req.store_id;
    user_id = req.user_id;
    table_id = order.table_id;
    order_ids = req.order_id ∷ [];
    method = method;
    note = req.note;
    terminal_reference = req.terminal_reference;
    per_order_amount = amount;
    key_hash = sha256 key;
    request_hash = payment_hash req amount method;
    guard_refunded_recollect = false;
  }

  -- `collect_settlement`
  unfoldable pub collect_settlement : Race → SettlementRequest → Ledger → Result (Receipt × Ledger)
  collect_settlement race req led = do
    key ← require_key req.idempotency_key
    method ← validate_method req.payment_method
    elim (find_settlement_by_key led req.store_id (sha256 key)) [
      | some existing ↦
          resolve_settlement_replay existing (settlement_hash req method) req.user_id led
      | none ↦ do_collect race (settlement_of req key method) led
    ]

  -- `collect_order_payment`
  unfoldable pub collect_order_payment : Race → PaymentRequest → Ledger → Result (Receipt × Ledger)
  collect_order_payment race req led = do
    key ← require_key req.idempotency_key
    method ← validate_method req.payment_method
    amount ← require_amount req.amount
    elim (find_settlement_by_key led req.store_id (sha256 key)) [
      | some existing ↦
          resolve_settlement_replay existing (payment_hash req amount method) req.user_id led
      | none ↦ do
        order ← load_order led req.store_id req.order_id
        do_collect race (payment_of req key method amount order) led
    ]
