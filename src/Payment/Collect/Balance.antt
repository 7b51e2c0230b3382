-- ===== src/Payment/Collect/Balance.antt =====
-- The balance of the ledger under collect_settlement and collect_order_payment of
-- apps/api/app/services/payment_service.py, beside other transactions.
use sweetops.Base.{
  ℕ, ◌≡◌, not, Option, none, some, List, [], ◌∷◌, arith, ok, not_found, no_balance, raise_if, ◌>>◌,
  >>=-eq-ok, inl, inr, Option-cases,
}
use mathlib.Core.Path.{subst}
use sweetops.Int.{ℤ}
use sweetops.Text.{Text}
use sweetops.Inventory.Books.{All}
use sweetops.Inventory.Lifecycle.{lock_order}
use sweetops.Payment.Model.{Ledger}
use sweetops.Payment.Collect.{
  Race, Receipt, Collection, Allocations, is_nil, all_found, check_orders, check_table, lock_orders,
  allocate, plan, collect_under_lock, do_collect, find_settlement_by_key,
}
use sweetops.Quantity.{Decimal, q2}
use sweetops.Inventory.Commands.{require_key}
use sweetops.Payment.Collect.Commands.{
  SettlementRequest, PaymentRequest, validate_method, require_amount, load_order, settlement_hash,
  payment_hash, settlement_of, payment_of, collect_settlement, collect_order_payment,
}
use sweetops.Payment.Collect.Due.{
  IsPositive, allocate-AreDue, lock_order-IsAscending, rows_of-AreHeld,
}
use sweetops.Payment.Collect.Charge.{IsBalanced, replay-IsBalanced, settle-IsBalanced}

-- What is asked of the other transactions: they keep the ledger balanced, and none of them writes
-- an order while this command holds its lock.
pub record IsFair (race : Race) (ids : List ℕ) : Type 0 where
  pub lock_balanced : (led : Ledger) → IsBalanced led → IsBalanced (race.before_lock led)
  pub insert_balanced : (led : Ledger) → IsBalanced led → IsBalanced (race.before_insert led)
  pub rows_kept :
      (led : Ledger)
      → All (λ id. (race.before_insert led).orders id ≡ led.orders id) (lock_order ids)

pub plan_allocates :
    (c : Collection) (led : Ledger) (as' : Allocations)
    → plan c led ≡ ok as'
    → allocate c.per_order_amount c.guard_refunded_recollect (lock_orders led c.order_ids) ≡ ok as'
unfolding plan
plan_allocates c led as' h =
    let orders = lock_orders led c.order_ids in
    let (_, _, h1) = >>=-eq-ok (raise_if (not (all_found led c.order_ids)) 404 not_found) _ h in
    let (_, _, h2) = >>=-eq-ok (check_orders c.store_id orders) _ h1 in
    let (_, _, h3) = >>=-eq-ok (check_table led c.store_id c.table_id orders) _ h2 in
    let (allocations, e, h4) =
      >>=-eq-ok (allocate c.per_order_amount c.guard_refunded_recollect orders)
        (λ x. raise_if (is_nil x) 409 no_balance >> ok x) h3 in
    ground (arith)

do_collect-IsBalanced :
    (race : Race) (c : Collection) (led : Ledger) (r : Receipt × Ledger)
    → IsFair race c.order_ids
    → IsPositive c.per_order_amount
    → IsBalanced led
    → do_collect race c led ≡ ok r
    → IsBalanced r.1
unfolding do_collect collect_under_lock lock_orders
do_collect-IsBalanced race c led r fair p b h =
    let locked = race.before_lock led in
    let b1 = fair.lock_balanced led b in
    elim (Option-cases (find_settlement_by_key locked c.store_id c.key_hash)) [
      | inr (existing, e) ↦
          replay-IsBalanced existing c.request_hash c.user_id locked r b1
            (rw (e, do_collect, collect_under_lock) at h)
      | inl e ↦
          let (as', e', h') =
            >>=-eq-ok (plan c locked) _ (rw (e, do_collect, collect_under_lock) at h) in
          let others = race.before_insert locked in
          let held =
            rows_of-AreHeld locked others (lock_order c.order_ids) (fair.rows_kept locked)
              (lock_order-IsAscending c.order_ids) in
          let due =
            allocate-AreDue others c.per_order_amount c.guard_refunded_recollect
              (lock_orders locked c.order_ids) as' p (plan_allocates c locked as' e') held in
          settle-IsBalanced c as' others r due (fair.insert_balanced locked b1) h'
    ]

require_amount-IsPositive :
    (given : Option Decimal) (amount : Option ℤ)
    → require_amount given ≡ ok amount
    → IsPositive amount
unfolding require_amount
require_amount-IsPositive none amount h = let e : none ≡ amount = cc in subst IsPositive e tt
require_amount-IsPositive (some x) amount h =
    let e : some (q2 x) ≡ amount = ground arith in subst IsPositive e (ground arith)

module _ (sha256 : Text → Text) (race : Race) (led : Ledger) (res : Receipt) (led' : Ledger) where
  -- On a balanced ledger, a table settlement that succeeds, beside any fair transactions, leaves the
  -- ledger balanced: every order's paid amount is the sum of its allocations, and no order is
  -- overpaid.
  pub collect_settlement-IsBalanced :
      (req : SettlementRequest)
      → IsFair race req.order_ids
      → IsBalanced led
      → collect_settlement sha256 race req led ≡ ok (res, led')
      → IsBalanced led'
  unfolding collect_settlement
  collect_settlement-IsBalanced req fair b h =
      let (key, _, h1) = >>=-eq-ok (require_key req.idempotency_key) _ h in
      let (method, _, h2) = >>=-eq-ok (validate_method req.payment_method) _ h1 in
      elim (Option-cases (find_settlement_by_key led req.store_id (sha256 key))) [
        | inl e ↦
            do_collect-IsBalanced race (settlement_of sha256 req key method) led (res, led') fair tt
              b (rw e at h2)
        | inr (existing, e) ↦
            replay-IsBalanced existing (settlement_hash sha256 req method) req.user_id led
              (res, led') b (rw e at h2)
      ]

  -- On a balanced ledger, a full or partial payment of an order that succeeds, beside any fair
  -- transactions, leaves the ledger balanced: every order's paid amount is the sum of its
  -- allocations, and no order is overpaid.
  pub collect_order_payment-IsBalanced :
      (req : PaymentRequest)
      → IsFair race (req.order_id ∷ [])
      → IsBalanced led
      → collect_order_payment sha256 race req led ≡ ok (res, led')
      → IsBalanced led'
  unfolding collect_order_payment
  collect_order_payment-IsBalanced req fair b h =
      let (key, _, h1) = >>=-eq-ok (require_key req.idempotency_key) _ h in
      let (method, _, h2) = >>=-eq-ok (validate_method req.payment_method) _ h1 in
      let (amount, ea, h3) = >>=-eq-ok (require_amount req.amount) _ h2 in
      elim (Option-cases (find_settlement_by_key led req.store_id (sha256 key))) [
        | inl e ↦
            let (order, _, h4) =
              >>=-eq-ok (load_order led req.store_id req.order_id) _ (rw e at h3) in
            do_collect-IsBalanced race (payment_of sha256 req key method amount order) led
              (res, led') fair (require_amount-IsPositive req.amount amount ea) b h4
        | inr (existing, e) ↦
            replay-IsBalanced existing (payment_hash sha256 req amount method) req.user_id led
              (res, led') b (rw e at h3)
      ]
