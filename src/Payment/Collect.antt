-- ===== src/Payment/Collect.antt =====
-- The transaction of a collection, of apps/api/app/services/payment_service.py: _do_collect and what
-- it calls. Receipts are the settlement's id, its gross amount and
-- whether it is a replay; the locks are the argument `race` below.
pub mod Commands
pub mod Replay
mod Due
pub mod Charge
pub mod Balance
pub mod Clearing
pub mod Cleared
use sweetops.Base.{
  ℕ, suc, Bool, true, false, ◌&&◌, not, Option, none, some, List, [], ◌∷◌, ◌==◌, if◌then◌else◌,
  find, map, Result, ok, err, http, raise_if, idempotency_required, idempotency_mismatch,
  invalid_method, invalid_amount, not_found, order_cancelled, table_mismatch, no_balance,
  overpayment, refunded_recollect, ◌>>=◌, ◌>>◌,
}
use sweetops.Int.{ℤ, pos, ◌+ℤ◌, ltb_ℤ, leb_ℤ}
use sweetops.Text.{Text, text_eq}
use sweetops.Quantity.{Decimal, q2}
use sweetops.Digest.{codes, Json, text, number, numbers, null, str_amount, canonical}
use sweetops.Inventory.Lifecycle.{lock_order}
use sweetops.Inventory.Commands.{require_key}
use sweetops.Payment.Model.{
  Order, RefundStatus, not_refunded, PaymentSettlement, PaymentAllocation, Ledger, set_order, audit,
  payment_collected, payment_idempotent_replay,
}
use sweetops.Payment.Summary.{net_paid, outstanding, is_cancelled, recompute_order_summary}

-- What other transactions commit while the command waits for the order locks, and between its
-- re-check and its insert.
pub record Race : Type 0 where
  pub before_lock : Ledger → Ledger
  pub before_insert : Ledger → Ledger

pub record Receipt : Type 0 where
  pub settlement_id : ℕ
  pub gross_amount : ℤ
  pub replayed : Bool

-- The arguments of `_do_collect`.
pub record Collection : Type 0 where
  pub store_id : ℕ
  pub user_id : ℕ
  pub table_id : Option ℕ
  pub order_ids : List ℕ
  pub method : Text
  pub note : Option Text
  pub terminal_reference : Option Text
  pub per_order_amount : Option ℤ
  pub key_hash : Text
  pub request_hash : Text
  pub guard_refunded_recollect : Bool

-- `_find_settlement_by_key`
abbrev has_settlement_key : ℕ → Text → PaymentSettlement → Bool
has_settlement_key store key s = s.store_id == store && text_eq s.idempotency_key_hash key

unfoldable pub find_settlement_by_key : Ledger → ℕ → Text → Option PaymentSettlement
find_settlement_by_key led store key = find (has_settlement_key store key) led.settlements

-- `_resolve_settlement_replay`, with the audit row of `_audit_replay`.
unfoldable pub resolve_settlement_replay :
    PaymentSettlement → Text → ℕ → Ledger → Result (Receipt × Ledger)
resolve_settlement_replay existing request_hash user led =
    if text_eq existing.request_hash request_hash
    then ok (
      record { settlement_id = existing.id; gross_amount = existing.gross_amount; replayed = true },
      audit payment_idempotent_replay existing.id user led,
    )
    else err (http 409 idempotency_mismatch)

-- `_lock_orders`: the rows that exist, in ascending id order.
abbrev pub Locked : Type 0
Locked = List (ℕ × Order)

unfoldable pub rows_of : Ledger → List ℕ → Locked
rows_of led [] = []
rows_of led (id ∷ ids) =
    let rest = rows_of led ids in elim (led.orders id) [ none ↦ rest | some o ↦ (id, o) ∷ rest ]

unfoldable pub lock_orders : Ledger → List ℕ → Locked
unfolding rows_of lock_order
lock_orders led ids = rows_of led (lock_order ids)

-- `if missing: raise _not_found()`
unfoldable pub all_found : Ledger → List ℕ → Bool
all_found led [] = true
all_found led (id ∷ ids) = elim (led.orders id) [ none ↦ false | some _ ↦ all_found led ids ]

-- Step 3: the loop over the orders, and the table's two checks.
unfoldable pub check_orders : ℕ → Locked → Result (Unit {0})
check_orders store [] = ok tt
check_orders store ((_, o) ∷ rest) = do
  raise_if (not (o.store_id == store)) 404 not_found
  raise_if (is_cancelled o.status) 409 order_cancelled
  check_orders store rest

is_at_table : ℕ → Option ℕ → Bool
is_at_table table none = false
is_at_table table (some t) = t == table

check_tables : ℕ → Locked → Result (Unit {0})
unfolding is_at_table
check_tables table [] = ok tt
check_tables table ((_, o) ∷ rest) = do
  raise_if (not (is_at_table table o.table_id)) 409 table_mismatch
  check_tables table rest

unfoldable pub check_table : Ledger → ℕ → Option ℕ → Locked → Result (Unit {0})
unfolding check_tables
check_table led store none orders = ok tt
check_table led store (some table) orders = elim (led.tables table) [
  | none ↦ err (http 404 not_found)
  | some owner ↦ do raise_if (not (owner == store)) 404 not_found; check_tables table orders
]

abbrev pub is_refunded : RefundStatus → Bool
is_refunded not_refunded = false
is_refunded _ = true

-- Step 4: an exact amount for the first order, or every outstanding balance.
abbrev pub Allocations : Type 0
Allocations = List (ℕ × Order × ℤ)

unfoldable pub allocate_exact : ℤ → Locked → Result Allocations
allocate_exact amount [] = err (http 404 not_found)
allocate_exact amount ((id, o) ∷ _) = do
  raise_if (leb_ℤ (outstanding o) (pos 0)) 409 no_balance
  raise_if (ltb_ℤ (outstanding o) amount) 409 overpayment
  ok ((id, o, amount) ∷ [])

unfoldable pub allocate_all : Bool → Locked → Result Allocations
allocate_all guarded [] = ok []
allocate_all guarded ((id, o) ∷ rest) = elim (leb_ℤ (outstanding o) (pos 0)) [
  | true ↦ allocate_all guarded rest
  | false ↦ do
    raise_if (guarded && is_refunded o.refund_status) 409 refunded_recollect
    others ← allocate_all guarded rest
    ok ((id, o, outstanding o) ∷ others)
]

unfoldable pub allocate : Option ℤ → Bool → Locked → Result Allocations
unfolding allocate_exact
allocate none guarded orders = allocate_all guarded orders
allocate (some amount) guarded orders = allocate_exact amount orders

-- `gross = sum(amt for _, amt in allocations)`
abbrev pub gross : Allocations → ℤ
gross [] = pos 0
gross ((_, _, amount) ∷ rest) = amount +ℤ gross rest

-- Step 5: one allocation, with the order's summary.
unfoldable pub pay : ℕ → ℕ → Order → ℤ → Ledger → Result Ledger
pay settlement id o amount led =
    let charged = record o { paid_amount = o.paid_amount +ℤ amount } in
    do
      raise_if (ltb_ℤ charged.total_amount (net_paid charged)) 409 overpayment
      ok (record led {
        orders = set_order id (recompute_order_summary charged) led.orders;
        allocations =
            record { id = led.next_id; settlement_id = settlement; order_id = id; amount = amount }
            ∷ led.allocations;
        next_id = suc led.next_id;
      })

unfoldable pub pay_all : ℕ → Allocations → Ledger → Result Ledger
pay_all settlement [] led = ok led
pay_all settlement ((id, o, amount) ∷ rest) led = do
  led' ← pay settlement id o amount led
  pay_all settlement rest led'

abbrev pub settlement_row : Collection → ℤ → ℕ → PaymentSettlement
settlement_row c total id = record {
  id = id;
  store_id = c.store_id;
  table_id = c.table_id;
  cashier_user_id = c.user_id;
  payment_method = c.method;
  gross_amount = total;
  note = c.note;
  terminal_reference = c.terminal_reference;
  idempotency_key_hash = c.key_hash;
  request_hash = c.request_hash;
}

abbrev pub is_nil : Allocations → Bool
is_nil [] = true
is_nil (_ ∷ _) = false

-- Steps 5 and 6, and the commit. A second settlement with the key is an IntegrityError, resolved
-- to the first.
unfoldable pub settle : Collection → Allocations → Ledger → Result (Receipt × Ledger)
settle c allocations led = elim (find_settlement_by_key led c.store_id c.key_hash) [
  | some winner ↦ resolve_settlement_replay winner c.request_hash c.user_id led
  | none ↦ do
    let total = gross allocations
    led' ← pay_all led.next_id allocations (record led {
      settlements = settlement_row c total led.next_id ∷ led.settlements;
      next_id = suc led.next_id;
    })
    ok (
      record { settlement_id = led.next_id; gross_amount = total; replayed = false },
      audit payment_collected led.next_id c.user_id led',
    )
]

-- Steps 3 and 4, once the orders are locked: what will be paid for which order.
unfoldable pub plan : Collection → Ledger → Result Allocations
unfolding all_found check_orders check_table
plan c locked = do
  let orders = lock_orders locked c.order_ids
  raise_if (not (all_found locked c.order_ids)) 404 not_found
  check_orders c.store_id orders
  check_table locked c.store_id c.table_id orders
  allocations ← allocate c.per_order_amount c.guard_refunded_recollect orders
  raise_if (is_nil allocations) 409 no_balance
  ok allocations

-- Step 2, the definitive check of the key, then the rest.
unfoldable pub collect_under_lock : Race → Collection → Ledger → Result (Receipt × Ledger)
collect_under_lock race c locked = elim (find_settlement_by_key locked c.store_id c.key_hash) [
  | some existing ↦ resolve_settlement_replay existing c.request_hash c.user_id locked
  | none ↦ do allocations ← plan c locked; settle c allocations (race.before_insert locked)
]

-- `_do_collect`, from the ledger as it is when the command asks for the order locks.
unfoldable pub do_collect : Race → Collection → Ledger → Result (Receipt × Ledger)
do_collect race c led = collect_under_lock race c (race.before_lock led)
