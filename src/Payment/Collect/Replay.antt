-- ===== src/Payment/Collect/Replay.antt =====
-- The replays of collect_settlement and collect_order_payment of
-- apps/api/app/services/payment_service.py, beside other transactions.
use sweetops.Base.{
  ℕ, suc, ◌≡◌, refl, true, some, [], ◌∷◌, arith, ok, >>=-eq-ok, inl, inr, Bool-cases, Option-cases,
}
use sweetops.Text.{Text, text_eq, text_eq_refl}
use sweetops.Int.{ℤ}
use sweetops.Inventory.Commands.{require_key}
use sweetops.Payment.Model.{Order, PaymentSettlement, Ledger, audit, payment_idempotent_replay}
use sweetops.Payment.Collect.{
  Race, Receipt, Collection, Allocations, find_settlement_by_key, resolve_settlement_replay, pay,
  pay_all, settle, settlement_row, gross, plan, collect_under_lock, do_collect,
}
use sweetops.Payment.Collect.Commands.{
  SettlementRequest, PaymentRequest, validate_method, require_amount, load_order,
  collect_settlement, collect_order_payment, settlement_of, payment_of, payment_hash,
}

-- A settlement with the receipt's number, amount, key and payload is in the ledger.
record IsRecorded (store : ℕ) (key request : Text) (r : Receipt × Ledger) : Type 0 where
  row : PaymentSettlement
  found : find_settlement_by_key r.1 store key ≡ some row
  same : text_eq row.request_hash request ≡ true
  id_kept : row.id ≡ r.0.settlement_id
  amount_kept : row.gross_amount ≡ r.0.gross_amount

resolve-IsRecorded :
    (store : ℕ) (key request : Text) (user : ℕ) (led : Ledger) (row : PaymentSettlement)
    (r : Receipt × Ledger)
    → find_settlement_by_key led store key ≡ some row
    → resolve_settlement_replay row request user led ≡ ok r
    → IsRecorded store key request r
unfolding find_settlement_by_key resolve_settlement_replay
resolve-IsRecorded store key request user led row r e h =
    elim (Bool-cases (text_eq row.request_hash request)) [
      | inl same ↦ record {
        row = row;
        found = ground arith;
        same = same;
        id_kept = ground arith;
        amount_kept = ground arith;
      }
      | inr other ↦ absurd (ground arith)
    ]

-- Paying leaves the settlements as they are.
pay-settlements :
    (settlement id : ℕ) (o : Order) (amount : ℤ) (led led' : Ledger)
    → pay settlement id o amount led ≡ ok led'
    → led'.settlements ≡ led.settlements
unfolding pay
pay-settlements settlement id o amount led led' h = ground arith

pay_all-settlements :
    (settlement : ℕ) (as' : Allocations) (led led' : Ledger)
    → pay_all settlement as' led ≡ ok led'
    → led'.settlements ≡ led.settlements
unfolding pay_all
pay_all-settlements settlement [] led led' h = ground arith
pay_all-settlements settlement ((id, o, amount) ∷ rest) led led' h =
    let (led1, e, h') = >>=-eq-ok (pay settlement id o amount led) _ h in
    ground (
      arith,
      pay-settlements settlement id o amount led led1 e,
      pay_all-settlements settlement rest led1 led' h',
    )

-- A new settlement is found by its key, with its payload's hash.
module _ (c : Collection) (led : Ledger) (r : Receipt × Ledger) where
  settle-IsRecorded :
      (as' : Allocations)
      → settle c as' led ≡ ok r
      → IsRecorded c.store_id c.key_hash c.request_hash r
  unfolding settle find_settlement_by_key
  settle-IsRecorded as' h = elim (Option-cases (find_settlement_by_key led c.store_id c.key_hash)) [
    | inr (winner, e) ↦
        resolve-IsRecorded c.store_id c.key_hash c.request_hash c.user_id led winner r e
          (ground arith)
    | inl e ↦
        let opened = record led {
          settlements = settlement_row c (gross as') led.next_id ∷ led.settlements;
          next_id = suc led.next_id;
        } in
        let (led', e', h') = >>=-eq-ok (pay_all led.next_id as' opened) _ (rw (e, settle) at h) in
        let kept = pay_all-settlements led.next_id as' opened led' e' in
        record {
          row = settlement_row c (gross as') led.next_id;
          found = ground (arith, text_eq_refl c.key_hash);
          same = text_eq_refl c.request_hash;
          id_kept = ground arith;
          amount_kept = ground arith;
        }
  ]

collect-IsRecorded :
    (race : Race) (c : Collection) (led : Ledger) (r : Receipt × Ledger)
    → do_collect race c led ≡ ok r
    → IsRecorded c.store_id c.key_hash c.request_hash r
unfolding do_collect collect_under_lock
collect-IsRecorded race c led r h =
    let locked = race.before_lock led in
    elim (Option-cases (find_settlement_by_key locked c.store_id c.key_hash)) [
      | inr (existing, e) ↦
          resolve-IsRecorded c.store_id c.key_hash c.request_hash c.user_id locked existing r e
            (ground arith)
      | inl e ↦
          let (as', _, h') =
            >>=-eq-ok (plan c locked) _ (rw (e, do_collect, collect_under_lock) at h) in
          settle-IsRecorded c (race.before_insert locked) r as' h'
    ]

-- The receipt of a replay.
abbrev pub replay_of : Receipt → Receipt
replay_of r = record r { replayed = true }

-- With the key and the payload of a settlement, the answer is its receipt.
replay-IsRecorded :
    (store : ℕ) (key request : Text) (user : ℕ) (r : Receipt × Ledger)
    (existing : PaymentSettlement)
    → IsRecorded store key request r
    → find_settlement_by_key r.1 store key ≡ some existing
    → resolve_settlement_replay existing request user r.1
      ≡ ok (replay_of r.0, audit payment_idempotent_replay r.0.settlement_id user r.1)
unfolding resolve_settlement_replay
replay-IsRecorded store key request user r existing h e =
    let same : existing ≡ h.row = ground (arith, h.found) in
    rw (same, h.same, h.id_kept, h.amount_kept) refl

module _ (sha256 : Text → Text) (race later : Race) (led : Ledger) (res : Receipt)
    (led' : Ledger) where
  -- Once a table settlement has succeeded, the same request, with any other transactions in between
  -- its own steps, answers the first settlement's receipt, marked as a replay; it takes no money
  -- and writes nothing but the replay's audit row.
  pub collect_settlement-collect_settlement :
      (req : SettlementRequest)
      → collect_settlement sha256 race req led ≡ ok (res, led')
      → collect_settlement sha256 later req led'
        ≡ ok (replay_of res, audit payment_idempotent_replay res.settlement_id req.user_id led')
  unfolding collect_settlement
  collect_settlement-collect_settlement req h =
      let (key, ek, h1) = >>=-eq-ok (require_key req.idempotency_key) _ h in
      let (method, em, h2) = >>=-eq-ok (validate_method req.payment_method) _ h1 in
      let c = settlement_of sha256 req key method in
      let recorded : IsRecorded c.store_id c.key_hash c.request_hash (res, led') =
        elim (Option-cases (find_settlement_by_key led c.store_id c.key_hash)) [
          | inl e ↦ collect-IsRecorded race c led (res, led') (ground arith)
          | inr (existing, e) ↦
              resolve-IsRecorded c.store_id c.key_hash c.request_hash c.user_id led existing
                (res, led') e (ground arith)
        ] in
      rw (ek, em, recorded.found)
        (replay-IsRecorded c.store_id c.key_hash c.request_hash c.user_id (res, led') recorded.row
          recorded recorded.found)

  -- Once an order's payment has succeeded, the same request, with any other transactions in between
  -- its own steps, answers the first settlement's receipt, marked as a replay; it takes no money
  -- and writes nothing but the replay's audit row.
  pub collect_order_payment-collect_order_payment :
      (req : PaymentRequest)
      → collect_order_payment sha256 race req led ≡ ok (res, led')
      → collect_order_payment sha256 later req led'
        ≡ ok (replay_of res, audit payment_idempotent_replay res.settlement_id req.user_id led')
  unfolding collect_order_payment
  collect_order_payment-collect_order_payment req h =
      let (key, ek, h1) = >>=-eq-ok (require_key req.idempotency_key) _ h in
      let (method, em, h2) = >>=-eq-ok (validate_method req.payment_method) _ h1 in
      let (amount, ea, h3) = >>=-eq-ok (require_amount req.amount) _ h2 in
      let hash = payment_hash sha256 req amount method in
      let recorded : IsRecorded req.store_id (sha256 key) hash (res, led') =
        elim (Option-cases (find_settlement_by_key led req.store_id (sha256 key))) [
          | inl e ↦
              let (order, _, h4) =
                >>=-eq-ok (load_order led req.store_id req.order_id) _ (rw e at h3) in
              collect-IsRecorded race (payment_of sha256 req key method amount order) led
                (res, led') h4
          | inr (existing, e) ↦
              resolve-IsRecorded req.store_id (sha256 key) hash req.user_id led existing (res, led')
                e (rw e at h3)
        ] in
      rw (ek, em, ea, recorded.found)
        (replay-IsRecorded req.store_id (sha256 key) hash req.user_id (res, led') recorded.row
          recorded recorded.found)
