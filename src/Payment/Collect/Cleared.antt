-- ===== src/Payment/Collect/Cleared.antt =====
-- What collect_settlement of apps/api/app/services/payment_service.py leaves to pay, beside other
-- transactions.
use sweetops.Base.{
  ℕ, suc, ◌≡◌, refl, true, false, not, none, List, [], ◌∷◌, arith, ok, raise_if, not_found,
  >>=-eq-ok, inl, inr, Option-cases,
}
use sweetops.Text.{Text}
use sweetops.Inventory.Books.{All}
use sweetops.Inventory.Lifecycle.{insert_id, lock_order}
use sweetops.Inventory.Commands.{require_key}
use sweetops.Payment.Model.{PaymentSettlement, Ledger}
use sweetops.Payment.Collect.{
  Race, Receipt, Collection, Locked, Allocations, rows_of, lock_orders, all_found, allocate_all,
  allocate, pay_all, plan, settle, settlement_row, gross, collect_under_lock, do_collect,
  find_settlement_by_key, resolve_settlement_replay,
}
use sweetops.Payment.Collect.Commands.{
  SettlementRequest, validate_method, settlement_hash, settlement_of, collect_settlement,
}
use sweetops.Payment.Collect.Due.{AreHeld, rows_of-AreHeld, lock_order-IsAscending}
use sweetops.Payment.Collect.Balance.{IsFair, plan_allocates}
use sweetops.Payment.Collect.Clearing.{IsClear, rows-IsClear, ids-IsClear}

-- With every order found, the plan is made.
plan_found :
    (c : Collection) (led : Ledger) (as' : Allocations)
    → plan c led ≡ ok as'
    → all_found led c.order_ids ≡ true
unfolding plan
plan_found c led as' h =
    let (_, found, _) = >>=-eq-ok (raise_if (not (all_found led c.order_ids)) 404 not_found) _ h in
    ground arith

replay-fresh :
    (row : PaymentSettlement) (request : Text) (user : ℕ) (led : Ledger) (r : Receipt × Ledger)
    → resolve_settlement_replay row request user led ≡ ok r
    → r.0.replayed ≡ true
unfolding resolve_settlement_replay
replay-fresh row request user led r h = ground arith

IsClear-of_rows :
    (led led' : Ledger) (ids : List ℕ)
    → led'.orders ≡ led.orders
    → All (IsClear led) ids
    → All (IsClear led') ids
IsClear-of_rows led led' [] e h = tt
IsClear-of_rows led led' (id ∷ ids) e (first, h) = (
  record { order = first.order; here = rw e first.here; nothing_left = first.nothing_left },
  IsClear-of_rows led led' ids e h,
)

held_of_rows :
    (led led' : Ledger) (rows : Locked)
    → led'.orders ≡ led.orders
    → AreHeld led rows
    → AreHeld led' rows
held_of_rows led led' [] e h = tt
held_of_rows led led' ((id, o) ∷ rest) e (here, above, h) =
    (rw e here, above, held_of_rows led led' rest e h)

found_insert :
    (led : Ledger) (i : ℕ) (js : List ℕ)
    → all_found led (i ∷ js) ≡ true
    → all_found led (insert_id i js) ≡ true
unfolding insert_id all_found
found_insert led i [] h = h
found_insert led i (j ∷ js) h = ground (arith, found_insert led i js)

found_lock_order :
    (led : Ledger) (ids : List ℕ) → all_found led ids ≡ true → all_found led (lock_order ids) ≡ true
unfolding lock_order all_found
found_lock_order led [] h = refl
found_lock_order led (i ∷ ids) h =
    found_insert led i (lock_order ids) (ground (arith, found_lock_order led ids))

settle_clears :
    (c : Collection) (locked : Ledger) (ids : List ℕ) (as' : Allocations) (led : Ledger)
    (r : Receipt × Ledger)
    → allocate_all c.guard_refunded_recollect (rows_of locked ids) ≡ ok as'
    → all_found locked ids ≡ true
    → AreHeld led (rows_of locked ids)
    → settle c as' led ≡ ok r
    → r.0.replayed ≡ false
    → All (IsClear r.1) ids
unfolding settle
settle_clears c locked ids as' led r planned found held h fresh =
    elim (Option-cases (find_settlement_by_key led c.store_id c.key_hash)) [
      | inr (winner, e) ↦
          let again = replay-fresh winner c.request_hash c.user_id led r (rw (e, settle) at h) in
          absurd (cc)
      | inl e ↦
          let opened = record led {
            settlements = settlement_row c (gross as') led.next_id ∷ led.settlements;
            next_id = suc led.next_id;
          } in
          let (led', e', h') = >>=-eq-ok (pay_all led.next_id as' opened) _ (rw (e, settle) at h) in
          let rows = rows_of locked ids in
          let cleared =
            rows-IsClear led.next_id c.guard_refunded_recollect rows as' opened led' planned
              (held_of_rows led opened rows refl held) e' in
          IsClear-of_rows led' r.1 ids (ground arith) (ids-IsClear locked led' ids found cleared)
    ]

module _ (race : Race) (c : Collection) (led : Ledger) (r : Receipt × Ledger)
    (fair : IsFair race c.order_ids) (whole : c.per_order_amount ≡ none) where
  do_collect_clears :
      do_collect race c led ≡ ok r
      → r.0.replayed ≡ false
      → All (IsClear r.1) (lock_order c.order_ids)
  unfolding do_collect collect_under_lock lock_orders allocate
  do_collect_clears h fresh =
      let locked = race.before_lock led in
      let ids = lock_order c.order_ids in
      elim (Option-cases (find_settlement_by_key locked c.store_id c.key_hash)) [
        | inr (existing, e) ↦
            let again =
              replay-fresh existing c.request_hash c.user_id locked r
                (rw (e, do_collect, collect_under_lock) at h) in
            absurd (cc)
        | inl e ↦
            let (as', e', h') =
              >>=-eq-ok (plan c locked) (λ x. settle c x (race.before_insert locked))
                (rw (e, do_collect, collect_under_lock) at h) in
            settle_clears c locked ids as' (race.before_insert locked) r
              (rw whole at (plan_allocates c locked as' e'))
              (found_lock_order locked c.order_ids (plan_found c locked as' e'))
              (rows_of-AreHeld locked (race.before_insert locked) ids (fair.rows_kept locked)
                (lock_order-IsAscending c.order_ids))
              h' fresh
      ]

-- A table settlement that succeeds and is no replay, beside any fair transactions, leaves nothing
-- to pay of any order that it names.
pub collect_settlement-IsClear :
    (sha256 : Text → Text) (race : Race) (led : Ledger) (res : Receipt) (led' : Ledger)
    (req : SettlementRequest)
    → IsFair race req.order_ids
    → collect_settlement sha256 race req led ≡ ok (res, led')
    → res.replayed ≡ false
    → All (IsClear led') (lock_order req.order_ids)
unfolding collect_settlement
collect_settlement-IsClear sha256 race led res led' req fair h fresh =
    let (key, _, h1) = >>=-eq-ok (require_key req.idempotency_key) _ h in
    let (method, _, h2) = >>=-eq-ok (validate_method req.payment_method) _ h1 in
    elim (Option-cases (find_settlement_by_key led req.store_id (sha256 key))) [
      | inl e ↦
          do_collect_clears race (settlement_of sha256 req key method) led (res, led') fair refl
            (rw e at h2) fresh
      | inr (existing, e) ↦
          let again =
            replay-fresh existing (settlement_hash sha256 req method) req.user_id led (res, led')
              (rw e at h2) in
          absurd (cc)
    ]
