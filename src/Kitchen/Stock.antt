-- ===== src/Kitchen/Stock.antt =====
-- What the order states do to the stock.
use mathlib.Core.Path.{subst}
use sweetops.Base.{
  ℕ, ◌≡◌, refl, true, false, not, ◌&&◌, some, List, [], ◌∷◌, Result, ok, err, arith, ◌>>=◌, inl,
  inr, Bool-cases, sym, ◌∙◌,
}
use sweetops.Inventory.Model.{Inventory}
use sweetops.Inventory.Books.{All, Explained-refl, Explained-trans, IsConsistent}
use sweetops.Inventory.Lifecycle.{is_pending}
use sweetops.Inventory.Lifecycle.Orders.{
  consume_order-OrderSettled, release_order_reservation-OrderSettled, consume_order-idle,
  release_order_reservation-idle,
}
use sweetops.Inventory.Manual.Effect.{Keeps}
use sweetops.Payment.Model.{Order, OrderStatus, new, in_prep}
use sweetops.Payment.Summary.{is_cancelled}
use sweetops.Kitchen.{Kitchen, StatusRequest, status_eq, is_undo, settle_stock, update_order_status}
use sweetops.Kitchen.Steps.{IsMoved, update_order_status-IsMoved}

-- What consume_order or release_order_reservation leaves.
settled_unique :
    {A : Type 0} {m : Result (A × Inventory)} {r : A × Inventory} {inv' : Inventory}
    → m ≡ ok r
    → (m >>= λ x. ok x.1) ≡ ok inv'
    → r.1 ≡ inv'
settled_unique e h = let q = rw e at h in cc

module _ (req : StatusRequest) (old : OrderStatus) (store : ℕ) (inv inv' : Inventory) where
  settle_stock-Keeps : IsConsistent inv → settle_stock req old store inv ≡ ok inv' → Keeps inv inv'
  unfolding settle_stock
  settle_stock-Keeps c h =
      elim (Bool-cases (status_eq req.new_status in_prep && not (is_undo old req.new_status))) [
        | inl taken ↦
            let (r, e, s) = consume_order-OrderSettled req.actor_user_id store req.order_id inv c in
            let same = settled_unique e (rw (taken, settle_stock) at h) in
            subst (Keeps inv) same (record { consistent = s.consistent; explained = s.explained })
        | inr other ↦ elim (Bool-cases (is_undo old req.new_status && status_eq old in_prep)) [
          | inl undone ↦
              let same : inv ≡ inv' = ground arith in
              subst (Keeps inv) same (record { consistent = c; explained = Explained-refl inv })
          | inr forward ↦ elim (Bool-cases (is_cancelled req.new_status)) [
            | inl given_up ↦
                let (r, e, s) =
                  release_order_reservation-OrderSettled req.actor_user_id store req.order_id inv
                    c in
                let same = settled_unique e (rw (other, forward, given_up, settle_stock) at h) in
                subst (Keeps inv) same
                  (record { consistent = s.consistent; explained = s.explained })
            | inr kept ↦
                let same : inv ≡ inv' = ground arith in
                subst (Keeps inv) same (record { consistent = c; explained = Explained-refl inv })
          ]
        ]
      ]

-- Nothing of the order is outstanding.
abbrev pub IsIdle : ℕ → ℕ → Inventory → Type 0
IsIdle store order inv = All (λ l. is_pending store order l ≡ false) inv.lines

module _ (req : StatusRequest) (old : OrderStatus) (store : ℕ) (inv inv' : Inventory) where
  settle_stock-idle :
      IsIdle store req.order_id inv → settle_stock req old store inv ≡ ok inv' → inv ≡ inv'
  unfolding settle_stock
  settle_stock-idle idle h =
      let a = consume_order-idle req.actor_user_id store req.order_id inv idle in
      let b = release_order_reservation-idle req.actor_user_id store req.order_id inv idle in
      ground arith

  settle_stock-taken :
      IsConsistent inv
      → status_eq req.new_status in_prep && not (is_undo old req.new_status) ≡ true
      → settle_stock req old store inv ≡ ok inv'
      → IsIdle store req.order_id inv'
  unfolding settle_stock
  settle_stock-taken c taken h =
      let (r, e, s) = consume_order-OrderSettled req.actor_user_id store req.order_id inv c in
      let same = settled_unique e (rw (taken, settle_stock) at h) in
      subst (IsIdle store req.order_id) same s.settled

-- Requests one after the other; one that fails is rolled back.
abbrev pub after_one : Result Kitchen → Kitchen → Kitchen
after_one (ok st') st = st'
after_one (err _) st = st

abbrev pub run : List StatusRequest → Kitchen → Kitchen
run [] st = st
run (req ∷ reqs) st = run reqs (after_one (update_order_status req st) st)

Keeps-trans : {a b c : Inventory} → Keeps a b → Keeps b c → Keeps a c
Keeps-trans p q = record {
  consistent = q.consistent;
  explained = Explained-trans p.explained q.explained;
}

after_one-Keeps :
    (req : StatusRequest) (st : Kitchen)
    → IsConsistent st.inventory
    → Keeps st.inventory (after_one (update_order_status req st) st).inventory
after_one-Keeps req st c = go (update_order_status req st) refl
  where
    go :
        (r : Result Kitchen)
        → update_order_status req st ≡ r
        → Keeps st.inventory (after_one r st).inventory
    go (err _) e = record { consistent = c; explained = Explained-refl st.inventory }
    go (ok st') e =
        let m = update_order_status-IsMoved req st st' e in
        settle_stock-Keeps req m.order.status m.order.store_id st.inventory st'.inventory c
          m.stock_settled

-- Whatever is asked of the kitchen, the stock tables stay consistent, and the ledger explains every
-- change.
pub run-Keeps :
    (reqs : List StatusRequest) (st : Kitchen)
    → IsConsistent st.inventory
    → Keeps st.inventory (run reqs st).inventory
run-Keeps [] st c = record { consistent = c; explained = Explained-refl st.inventory }
run-Keeps (req ∷ reqs) st c =
    let k = after_one-Keeps req st c in
    Keeps-trans k (run-Keeps reqs (after_one (update_order_status req st) st) k.consistent)

-- The order stands in the store, and nothing of it is outstanding.
abbrev IsSettled : ℕ → ℕ → Kitchen → Type 0
IsSettled store id st =
    ((o : Order) × (st.orders id ≡ some o) × (o.store_id ≡ store)) × IsIdle store id st.inventory

moved-row :
    (req : StatusRequest) (st st' : Kitchen) (m : IsMoved req st st')
    → st'.orders req.order_id ≡ some (record m.order { status = req.new_status })
moved-row req st st' m = rw m.orders_written (ground arith)

after_one-idle :
    (store : ℕ) (req : StatusRequest) (st : Kitchen)
    → IsSettled store req.order_id st
    → let next = after_one (update_order_status req st) st in
      (next.inventory ≡ st.inventory) × IsSettled store req.order_id next
after_one-idle store req st h = go (update_order_status req st) refl
  where
    go :
        (r : Result Kitchen)
        → update_order_status req st ≡ r
        → ((after_one r st).inventory ≡ st.inventory)
          × IsSettled store req.order_id (after_one r st)
    go (err _) e = (refl, h)
    go (ok st') e =
        let ((o, here, own), idle) = h in
        let m = update_order_status-IsMoved req st st' e in
        let own' : m.order.store_id ≡ store = ground (arith, m.here) in
        let same : st.inventory ≡ st'.inventory =
          settle_stock-idle req m.order.status m.order.store_id st.inventory st'.inventory
            (rw own' idle) m.stock_settled in
        (
          sym same,
          (
            (record m.order { status = req.new_status }, moved-row req st st' m, own'),
            subst (IsIdle store req.order_id) same idle,
          ),
        )

idle-run :
    (store id : ℕ) (reqs : List StatusRequest) (st : Kitchen)
    → All (λ req. req.order_id ≡ id) reqs
    → IsSettled store id st
    → (run reqs st).inventory ≡ st.inventory
idle-run store id [] st own h = refl
idle-run store id (req ∷ reqs) st (e, own) h =
    let next = after_one (update_order_status req st) st in
    let (same, h') = after_one-idle store req st (subst (λ k. IsSettled store k st) (sym e) h) in
    idle-run store id reqs next own (subst (λ k. IsSettled store k next) e h') ∙ same

-- Once the kitchen has taken a new order up, whatever is then asked of that order, undoing and
-- taking it up again and cancelling it included, changes the stock tables no more: its ingredients
-- are consumed exactly once, and none comes back.
pub taking_up-run :
    (first : StatusRequest) (reqs : List StatusRequest) (st st' : Kitchen) (order : Order)
    → IsConsistent st.inventory
    → st.orders first.order_id ≡ some order
    → order.status ≡ new
    → first.new_status ≡ in_prep
    → update_order_status first st ≡ ok st'
    → All (λ req. req.order_id ≡ first.order_id) reqs
    → (run reqs st').inventory ≡ st'.inventory
unfolding is_undo
taking_up-run first reqs st st' order c here was_new taken h own =
    let m = update_order_status-IsMoved first st st' h in
    let status : m.order.status ≡ new = ground (arith, m.here) in
    let idle =
      settle_stock-taken first m.order.status m.order.store_id st.inventory st'.inventory c
        (rw (status, taken) refl) m.stock_settled in
    idle-run m.order.store_id first.order_id reqs st' own
      ((record m.order { status = first.new_status }, moved-row first st st' m, refl), idle)
