-- ===== src/Payment/Refund.antt =====
-- Refunds, of apps/api/app/services/payment_service.py: refund_allocation, which a supervisor asks for
-- at the till, and create_issue_refunds, by which an order issue gives money back. A session of
-- the database flushes nothing by itself, so what a command adds is seen from its flush or commit
-- on. The currency is always TRY.
pub mod Linked
pub mod Distribute
pub mod Outcome
pub mod Issued
pub mod Replay
use sweetops.Base.{
  ℕ, suc, ◌+◌, Bool, true, false, not, ◌&&◌, ◌||◌, Option, none, some, List, [], ◌∷◌, ◌++◌, ◌==◌,
  leb, if◌then◌else◌, find, Result, ok, err, http, raise_if, reason_required, invalid_amount,
  not_found, idempotency_mismatch, refund_over_balance, internal_error, integrity_error, ◌>>=◌,
  ◌>>◌,
}
use sweetops.Int.{ℤ, pos, ◌+ℤ◌, ◌-ℤ◌, leb_ℤ, ltb_ℤ, smaller}
use sweetops.Text.{Text, text_eq}
use sweetops.Quantity.{Decimal, q2}
use sweetops.Digest.{codes, text, number, str_nat, str_amount, canonical}
use sweetops.Inventory.Commands.{require_key, require_reason}
use sweetops.Payment.Model.{
  Order, PaymentSettlement, PaymentAllocation, PaymentRefund, Ledger, set_order, audit,
  refunded_from, payment_refunded, payment_idempotent_replay,
}
use sweetops.Payment.Summary.{recompute_order_summary}
use sweetops.Payment.Collect.{Race}

-- `RefundCreateRequest`, with the session, the path's allocation and the Idempotency-Key header.
pub record RefundRequest : Type 0 where
  pub store_id : ℕ
  pub user_id : ℕ
  pub idempotency_key : Option Text
  pub allocation_id : ℕ
  pub amount : Decimal
  pub reason : Option Text

pub record RefundReceipt : Type 0 where
  pub refund_id : ℕ
  pub amount : ℤ
  pub replayed : Bool

-- A checked request.
pub record RefundCommand : Type 0 where
  pub store_id : ℕ
  pub user_id : ℕ
  pub allocation_id : ℕ
  pub amount : ℤ
  pub reason : Text
  pub key_hash : Text
  pub request_hash : Text

-- `_find_refund_by_key`
abbrev pub has_refund_key : ℕ → Text → PaymentRefund → Bool
has_refund_key store key r = r.store_id == store && text_eq r.idempotency_key_hash key

unfoldable pub find_refund_by_key : Ledger → ℕ → Text → Option PaymentRefund
find_refund_by_key led store key = find (has_refund_key store key) led.refunds

-- `_resolve_refund_replay`, with the audit row of `_audit_replay`.
unfoldable pub resolve_refund_replay :
    PaymentRefund → Text → ℕ → Ledger → Result (RefundReceipt × Ledger)
resolve_refund_replay existing request_hash user led =
    if text_eq existing.request_hash request_hash
    then ok (
      record { refund_id = existing.id; amount = existing.amount; replayed = true },
      audit payment_idempotent_replay existing.allocation_id user led,
    )
    else err (http 409 idempotency_mismatch)

-- `allocation_refundable`
unfoldable pub allocation_refundable : Ledger → PaymentAllocation → ℤ
allocation_refundable led a = a.amount -ℤ refunded_from led.refunds a.id

abbrev pub is_allocation : ℕ → PaymentAllocation → Bool
is_allocation id a = a.id == id

abbrev pub is_settlement : ℕ → PaymentSettlement → Bool
is_settlement id s = s.id == id

-- The allocation, and that its settlement is of the staff's store.
unfoldable pub load_allocation : Ledger → ℕ → ℕ → Result PaymentAllocation
load_allocation led store id = elim (find (is_allocation id) led.allocations) [
  | none ↦ err (http 404 not_found)
  | some a ↦ elim (find (is_settlement a.settlement_id) led.settlements) [
    | none ↦ err (http 404 not_found)
    | some s ↦ do raise_if (not (s.store_id == store)) 404 not_found; ok a
  ]
]

-- The order row once money has gone back from it.
abbrev pub give_back : Order → ℤ → Order
give_back o amount =
    recompute_order_summary (record o { refunded_amount = o.refunded_amount +ℤ amount })

abbrev pub refund_row : RefundCommand → PaymentAllocation → ℕ → PaymentRefund
refund_row c a id = record {
  id = id;
  store_id = c.store_id;
  settlement_id = a.settlement_id;
  allocation_id = a.id;
  order_id = a.order_id;
  amount = c.amount;
  reason = c.reason;
  refunded_by_user_id = c.user_id;
  idempotency_key_hash = c.key_hash;
  request_hash = c.request_hash;
  order_issue_id = none;
}

-- The insert and the commit. A second refund with the key is an IntegrityError, resolved to the
-- first.
unfoldable pub insert_refund :
    RefundCommand → PaymentAllocation → Order → Ledger → Result (RefundReceipt × Ledger)
insert_refund c a o led = elim (find_refund_by_key led c.store_id c.key_hash) [
  | some winner ↦ resolve_refund_replay winner c.request_hash c.user_id led
  | none ↦ ok (
    record { refund_id = led.next_id; amount = c.amount; replayed = false },
    audit payment_refunded a.id c.user_id (record led {
      orders = set_order a.order_id (give_back o c.amount) led.orders;
      refunds = refund_row c a led.next_id ∷ led.refunds;
      next_id = suc led.next_id;
    }),
  )
]

-- The definitive check of the key, and the balance, once the order is locked.
unfoldable pub refund_under_lock :
    Race → RefundCommand → PaymentAllocation → Ledger → Result (RefundReceipt × Ledger)
refund_under_lock race c a locked = elim (locked.orders a.order_id) [
  | none ↦ err (http 404 not_found)
  | some o ↦ do
    raise_if (not (o.store_id == c.store_id)) 404 not_found
    elim (find_refund_by_key locked c.store_id c.key_hash) [
      | some existing ↦ resolve_refund_replay existing c.request_hash c.user_id locked
      | none ↦
          let refundable = allocation_refundable locked a in
          do
            raise_if (leb_ℤ refundable (pos 0) || ltb_ℤ refundable c.amount) 409 refund_over_balance
            insert_refund c a o (race.before_insert locked)
    ]
]

-- `amount = q2(req.amount)` and its check.
unfoldable pub require_refund_amount : Decimal → Result ℤ
unfolding q2
require_refund_amount amount = do
  raise_if (leb_ℤ (q2 amount) (pos 0)) 422 invalid_amount
  ok (q2 amount)

-- The replay of a key that is taken, or the refund.
unfoldable pub run_refund : Race → RefundCommand → Ledger → Result (RefundReceipt × Ledger)
run_refund race c led = elim (find_refund_by_key led c.store_id c.key_hash) [
  | some existing ↦ resolve_refund_replay existing c.request_hash c.user_id led
  | none ↦ do
    a ← load_allocation led c.store_id c.allocation_id
    refund_under_lock race c a (race.before_lock led)
]

module _ (sha256 : Text → Text) where
  abbrev pub refund_hash : ℕ → ℤ → Text → Text
  refund_hash allocation amount reason = sha256 (
      canonical (
        (codes "cmd", text (codes "refund"))
        ∷ (codes "allocation_id", number allocation)
        ∷ (codes "amount", text (str_amount 2 amount))
        ∷ (codes "reason", text reason)
        ∷ []))

  abbrev pub refund_command : RefundRequest → Text → Text → ℤ → RefundCommand
  refund_command req key reason amount = record {
    store_id = req.store_id;
    user_id = req.user_id;
    allocation_id = req.allocation_id;
    amount = amount;
    reason = reason;
    key_hash = sha256 key;
    request_hash = refund_hash req.allocation_id amount reason;
  }

  -- `refund_allocation`
  unfoldable pub refund_allocation : Race → RefundRequest → Ledger → Result (RefundReceipt × Ledger)
  refund_allocation race req led = do
    key ← require_key req.idempotency_key
    reason ← require_reason req.reason
    amount ← require_refund_amount req.amount
    run_refund race (refund_command req key reason amount) led

-- The order's allocations, by ascending id.
unfoldable pub insert_allocation :
    PaymentAllocation → List PaymentAllocation → List PaymentAllocation
insert_allocation a [] = a ∷ []
insert_allocation a (b ∷ bs) = if leb a.id b.id then a ∷ b ∷ bs else b ∷ insert_allocation a bs

unfoldable pub allocations_of : List PaymentAllocation → ℕ → List PaymentAllocation
allocations_of [] order = []
allocations_of (a ∷ as') order =
    let rest = allocations_of as' order in
    if a.order_id == order then insert_allocation a rest else rest

-- The loop of create_issue_refunds: what is taken from which allocation, and what is left to give.
abbrev pub Shares : Type 0
Shares = List (PaymentAllocation × ℤ)

unfoldable pub distribute : Ledger → List PaymentAllocation → ℤ → Result (Shares × ℤ)
distribute led [] remaining = ok ([], remaining)
distribute led (a ∷ as') remaining = elim (leb_ℤ remaining (pos 0)) [
  | true ↦ ok ([], remaining)
  | false ↦ elim (leb_ℤ (allocation_refundable led a) (pos 0)) [
    | true ↦ distribute led as' remaining
    | false ↦ elim (find (is_settlement a.settlement_id) led.settlements) [
      | none ↦ err (http 500 internal_error)
      | some _ ↦
          let taken = smaller remaining (allocation_refundable led a) in
          do rest ← distribute led as' (remaining -ℤ taken); ok ((a, taken) ∷ rest.0, rest.1)
    ]
  ]
]

-- What an issue asks of create_issue_refunds; `store_id` is the order's.
pub record IssueRefund : Type 0 where
  pub store_id : ℕ
  pub user_id : ℕ
  pub order_id : ℕ
  pub issue_id : ℕ
  pub total_amount : ℤ
  pub reason : Text
  pub base_key : Text

abbrev pub is_nil : Shares → Bool
is_nil [] = true
is_nil (_ ∷ _) = false

-- The order's `refunded_amount` after the loop.
abbrev pub given : Shares → ℤ
given [] = pos 0
given ((_, amount) ∷ rest) = amount +ℤ given rest

module _ (sha256 : Text → Text) where
  abbrev pub share_key : IssueRefund → PaymentAllocation → Text
  share_key c a =
      sha256
        (c.base_key ++ (codes "|issue-refund|" ++ (str_nat c.issue_id ++ (b'|' ∷ str_nat a.id))))

  abbrev pub share_hash : IssueRefund → PaymentAllocation → ℤ → Text
  share_hash c a amount = sha256 (
      canonical (
        (codes "cmd", text (codes "issue_refund"))
        ∷ (codes "issue_id", number c.issue_id)
        ∷ (codes "allocation_id", number a.id)
        ∷ (codes "amount", text (str_amount 2 amount))
        ∷ (codes "reason", text c.reason)
        ∷ []))

  abbrev pub share_row : IssueRefund → PaymentAllocation → ℤ → ℕ → PaymentRefund
  share_row c a amount id = record {
    id = id;
    store_id = c.store_id;
    settlement_id = a.settlement_id;
    allocation_id = a.id;
    order_id = c.order_id;
    amount = amount;
    reason = c.reason;
    refunded_by_user_id = c.user_id;
    idempotency_key_hash = share_key c a;
    request_hash = share_hash c a amount;
    order_issue_id = some c.issue_id;
  }

  -- The flush, and the audit rows; a key that is taken is an IntegrityError, which the caller lets
  -- through.
  unfoldable pub add_shares : IssueRefund → Shares → Ledger → Result Ledger
  add_shares c [] led = ok led
  add_shares c ((a, amount) ∷ rest) led = elim (find_refund_by_key led c.store_id (share_key c a)) [
    | some _ ↦ err (http 500 integrity_error)
    | none ↦ add_shares c rest (
        audit payment_refunded a.id c.user_id (record led {
          refunds = share_row c a amount led.next_id ∷ led.refunds;
          next_id = suc led.next_id;
        }))
  ]

  -- `create_issue_refunds`, for the locked order row `o`: the first refund's id, and the tables.
  unfoldable pub create_issue_refunds : IssueRefund → Order → Ledger → Result (ℕ × Ledger)
  create_issue_refunds c o led = do
    raise_if (leb_ℤ c.total_amount (pos 0)) 409 refund_over_balance
    r ← distribute led (allocations_of led.allocations c.order_id) c.total_amount
    raise_if (ltb_ℤ (pos 0) r.1 || is_nil r.0) 409 refund_over_balance
    led' ← add_shares c r.0 led
    ok (
      led.next_id,
      record led' { orders = set_order c.order_id (give_back o (given r.0)) led'.orders },
    )
