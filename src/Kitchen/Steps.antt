-- ===== src/Kitchen/Steps.antt =====
-- The order states as a step relation.
use sweetops.Base.{
  ℕ, ◌-◌, ◌≤◌, ◌≡◌, true, ◌&&◌, some, ◌∷◌, ok, arith, raise_if, payment_outstanding, >>=-eq-ok, inl,
  inr, Bool-cases, Option-cases,
}
use sweetops.Int.{pos, ltb_ℤ, ◌≤ℤ◌}
use sweetops.Payment.Model.{
  Order, OrderStatus, new, in_prep, ready, delivered, cancelled, set_order,
}
use sweetops.Payment.Summary.{net_paid, is_cancelled}
use sweetops.Kitchen.{
  Kitchen, StatusRequest, is_other_store, is_terminal, is_undo, is_valid_transition, undo_window,
  last_event, validate_undo_window, validate_forward_transition, validate_transition, settle_stock,
  status_event, move_order, update_order_status,
}

-- The moves of an order, forward, and back within the window after the order came where it is.
pub data Step (st : Kitchen) (req : StatusRequest) : OrderStatus → OrderStatus → Type 0 where
  takes_up : Step st req new in_prep
  completes : Step st req in_prep ready
  hands_over : Step st req ready delivered
  cancels_new : Step st req new cancelled
  cancels_started : Step st req in_prep cancelled
  undoes_taking :
      (time : ℕ)
      → last_event st.events req.order_id in_prep ≡ some time
      → req.now - time ≤ undo_window
      → Step st req in_prep new
  undoes_completing :
      (time : ℕ)
      → last_event st.events req.order_id ready ≡ some time
      → req.now - time ≤ undo_window
      → Step st req ready in_prep

-- What an update of an order has done: one step, with no money kept on a cancelled order, the
-- order's stock settled, the order's status alone changed, and the event recorded.
pub record IsMoved (req : StatusRequest) (st st' : Kitchen) : Type 0 where
  pub order : Order
  pub here : st.orders req.order_id ≡ some order
  pub step : Step st req order.status req.new_status
  pub nothing_kept : req.new_status ≡ cancelled → net_paid order ≤ℤ pos 0
  pub stock_settled : settle_stock req order.status order.store_id st.inventory ≡ ok st'.inventory
  pub orders_written :
      st'.orders ≡ set_order req.order_id (record order { status = req.new_status }) st.orders
  pub recorded : st'.events ≡ status_event req order.status ∷ st.events

forward-Step :
    (st : Kitchen) (req : StatusRequest) (a b : OrderStatus)
    → is_valid_transition a b ≡ true
    → Step st req a b
unfolding is_valid_transition
forward-Step st req new new h = absurd (cc)
forward-Step st req new in_prep h = takes_up
forward-Step st req new ready h = absurd (cc)
forward-Step st req new delivered h = absurd (cc)
forward-Step st req new cancelled h = cancels_new
forward-Step st req in_prep new h = absurd (cc)
forward-Step st req in_prep in_prep h = absurd (cc)
forward-Step st req in_prep ready h = completes
forward-Step st req in_prep delivered h = absurd (cc)
forward-Step st req in_prep cancelled h = cancels_started
forward-Step st req ready new h = absurd (cc)
forward-Step st req ready in_prep h = absurd (cc)
forward-Step st req ready ready h = absurd (cc)
forward-Step st req ready delivered h = hands_over
forward-Step st req ready cancelled h = absurd (cc)
forward-Step st req delivered new h = absurd (cc)
forward-Step st req delivered in_prep h = absurd (cc)
forward-Step st req delivered ready h = absurd (cc)
forward-Step st req delivered delivered h = absurd (cc)
forward-Step st req delivered cancelled h = absurd (cc)
forward-Step st req cancelled new h = absurd (cc)
forward-Step st req cancelled in_prep h = absurd (cc)
forward-Step st req cancelled ready h = absurd (cc)
forward-Step st req cancelled delivered h = absurd (cc)
forward-Step st req cancelled cancelled h = absurd (cc)

undo-Step :
    (st : Kitchen) (req : StatusRequest) (a b : OrderStatus) (time : ℕ)
    → is_undo a b ≡ true
    → last_event st.events req.order_id a ≡ some time
    → req.now - time ≤ undo_window
    → Step st req a b
unfolding is_undo
undo-Step st req new new time h e w = absurd (cc)
undo-Step st req new in_prep time h e w = absurd (cc)
undo-Step st req new ready time h e w = absurd (cc)
undo-Step st req new delivered time h e w = absurd (cc)
undo-Step st req new cancelled time h e w = absurd (cc)
undo-Step st req in_prep new time h e w = undoes_taking time e w
undo-Step st req in_prep in_prep time h e w = absurd (cc)
undo-Step st req in_prep ready time h e w = absurd (cc)
undo-Step st req in_prep delivered time h e w = absurd (cc)
undo-Step st req in_prep cancelled time h e w = absurd (cc)
undo-Step st req ready new time h e w = absurd (cc)
undo-Step st req ready in_prep time h e w = undoes_completing time e w
undo-Step st req ready ready time h e w = absurd (cc)
undo-Step st req ready delivered time h e w = absurd (cc)
undo-Step st req ready cancelled time h e w = absurd (cc)
undo-Step st req delivered new time h e w = absurd (cc)
undo-Step st req delivered in_prep time h e w = absurd (cc)
undo-Step st req delivered ready time h e w = absurd (cc)
undo-Step st req delivered delivered time h e w = absurd (cc)
undo-Step st req delivered cancelled time h e w = absurd (cc)
undo-Step st req cancelled new time h e w = absurd (cc)
undo-Step st req cancelled in_prep time h e w = absurd (cc)
undo-Step st req cancelled ready time h e w = absurd (cc)
undo-Step st req cancelled delivered time h e w = absurd (cc)
undo-Step st req cancelled cancelled time h e w = absurd (cc)

validate_transition-Step :
    (st : Kitchen) (req : StatusRequest) (old : OrderStatus)
    → validate_transition st req old ≡ ok tt
    → Step st req old req.new_status
unfolding validate_transition validate_undo_window validate_forward_transition
validate_transition-Step st req old h = elim (Bool-cases (is_undo old req.new_status)) [
  | inr forward ↦ forward-Step st req old req.new_status (ground arith)
  | inl undo ↦ elim (Option-cases (last_event st.events req.order_id old)) [
    | inl e ↦ absurd (ground arith)
    | inr (time, e) ↦ undo-Step st req old req.new_status time undo e (ground arith)
  ]
]

move_order-IsMoved :
    (req : StatusRequest) (order : Order) (st st' : Kitchen)
    → st.orders req.order_id ≡ some order
    → move_order req order st ≡ ok st'
    → IsMoved req st st'
unfolding move_order
move_order-IsMoved req order st st' here h =
    let (_, _, h1) = >>=-eq-ok (raise_if (is_other_store req.store_id order.store_id) _ _) _ h in
    let (_, _, h2) = >>=-eq-ok (raise_if (is_terminal order.status) _ _) _ h1 in
    let (_, valid, h3) = >>=-eq-ok (validate_transition st req order.status) _ h2 in
    let (_, unpaid_for, h4) =
      >>=-eq-ok
        (raise_if (is_cancelled req.new_status && ltb_ℤ (pos 0) (net_paid order)) 409
          payment_outstanding)
        _ h3 in
    let (inv, settled, h5) =
      >>=-eq-ok (settle_stock req order.status order.store_id st.inventory) _ h4 in
    record {
      order = order;
      here = here;
      step = validate_transition-Step st req order.status valid;
      nothing_kept = λ e. ground arith;
      stock_settled = ground arith;
      orders_written = ground arith;
      recorded = ground arith;
    }

-- update_order_status moves an order only along the steps of the state machine, undoes a step only
-- within the window, cancels no order that still holds money, and otherwise changes the order's
-- status alone, settles its stock and records the event.
pub update_order_status-IsMoved :
    (req : StatusRequest) (st st' : Kitchen)
    → update_order_status req st ≡ ok st'
    → IsMoved req st st'
unfolding update_order_status
update_order_status-IsMoved req st st' h = elim (Option-cases (st.orders req.order_id)) [
  | inl e ↦ absurd (ground arith)
  | inr (order, e) ↦ move_order-IsMoved req order st st' e (rw (e, update_order_status) at h)
]
