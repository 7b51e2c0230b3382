-- ===== src/Kitchen.antt =====
-- The order states of the kitchen, of apps/api/app/services/kitchen_service.py: update_order_status
-- and its checks. A requested status that is none of the five is refused as an invalid transition
-- before anything is read of it, so requests are of the five. Times are in microseconds; the staff
-- id that `_actor_user_id` reads from the actor is an argument; the audit row, which is best effort,
-- and the broadcast to the screens are left out.
pub mod Closed
pub mod Steps
pub mod Stock
use sweetops.Base.{
  ℕ, ◌-◌, Bool, true, false, not, ◌&&◌, Option, none, some, List, [], ◌∷◌, ltb, leb, ◌==◌,
  if◌then◌else◌, Result, ok, err, http, raise_if, order_not_found, terminal_state,
  invalid_transition, undo_no_event, undo_window_expired, payment_outstanding, ◌>>=◌, ◌>>◌,
}
use sweetops.Int.{ℤ, pos, ltb_ℤ}
use sweetops.Text.{Text}
use sweetops.Inventory.Model.{Inventory}
use sweetops.Inventory.Lifecycle.{consume_order, release_order_reservation}
use sweetops.Payment.Model.{
  Order, OrderStatus, new, in_prep, ready, delivered, cancelled, set_order,
}
use sweetops.Payment.Summary.{net_paid, is_cancelled}

pub record OrderStatusEvent : Type 0 where
  pub order_id : ℕ
  pub status_from : Option OrderStatus
  pub status_to : OrderStatus
  pub actor_id : Option Text
  pub created_at : ℕ

-- The rows that the kitchen writes.
pub record Kitchen : Type 0 where
  pub orders : ℕ → Option Order
  pub inventory : Inventory
  pub events : List OrderStatusEvent

pub record StatusRequest : Type 0 where
  pub order_id : ℕ
  pub new_status : OrderStatus
  pub store_id : Option ℕ
  pub actor_id : Option Text
  pub actor_user_id : Option ℕ
  pub now : ℕ

abbrev pub status_eq : OrderStatus → OrderStatus → Bool
status_eq new new = true
status_eq in_prep in_prep = true
status_eq ready ready = true
status_eq delivered delivered = true
status_eq cancelled cancelled = true
status_eq _ _ = false

-- `TERMINAL_STATES`
unfoldable pub is_terminal : OrderStatus → Bool
is_terminal delivered = true
is_terminal cancelled = true
is_terminal _ = false

-- `VALID_TRANSITIONS`
unfoldable pub is_valid_transition : OrderStatus → OrderStatus → Bool
is_valid_transition new in_prep = true
is_valid_transition new cancelled = true
is_valid_transition in_prep ready = true
is_valid_transition in_prep cancelled = true
is_valid_transition ready delivered = true
is_valid_transition _ _ = false

-- `UNDO_TRANSITIONS`
unfoldable pub is_undo : OrderStatus → OrderStatus → Bool
is_undo in_prep new = true
is_undo ready in_prep = true
is_undo _ _ = false

-- `_validate_forward_transition`
unfoldable pub validate_forward_transition : OrderStatus → OrderStatus → Result (Unit {0})
unfolding is_valid_transition
validate_forward_transition current requested =
    raise_if (not (is_valid_transition current requested)) 409 invalid_transition

-- `UNDO_WINDOW_SECONDS`
abbrev pub undo_window : ℕ
undo_window = 60000000

abbrev later : ℕ → Option ℕ → Option ℕ
later t none = some t
later t (some u) = if leb u t then some t else some u

-- When the order last came into `current`.
unfoldable pub last_event : List OrderStatusEvent → ℕ → OrderStatus → Option ℕ
last_event [] order current = none
last_event (e ∷ es) order current =
    let rest = last_event es order current in
    if e.order_id == order && status_eq e.status_to current then later e.created_at rest else rest

-- `_validate_undo_window`
unfoldable pub validate_undo_window : Kitchen → ℕ → OrderStatus → ℕ → Result (Unit {0})
unfolding last_event
validate_undo_window st order current now = elim (last_event st.events order current) [
  | none ↦ err (http 409 undo_no_event)
  | some time ↦ raise_if (ltb undo_window (now - time)) 410 undo_window_expired
]

unfoldable pub validate_transition : Kitchen → StatusRequest → OrderStatus → Result (Unit {0})
unfolding is_undo
validate_transition st req old =
    if is_undo old req.new_status
    then validate_undo_window st req.order_id old req.now
    else validate_forward_transition old req.new_status

-- What becomes of the order's stock: it is consumed when the kitchen takes the order up, kept as it
-- is on an undo, and released on a cancellation.
abbrev take_tables : Result (List (ℕ × ℤ) × Inventory) → Result Inventory
take_tables r = r >>= λ x. ok x.1

unfoldable pub settle_stock : StatusRequest → OrderStatus → ℕ → Inventory → Result Inventory
unfolding is_undo
settle_stock req old store inv =
    if status_eq req.new_status in_prep && not (is_undo old req.new_status)
    then take_tables (consume_order req.actor_user_id store req.order_id inv)
    else if is_undo old req.new_status && status_eq old in_prep
    then ok inv
    else if is_cancelled req.new_status
    then take_tables (release_order_reservation req.actor_user_id store req.order_id inv)
    else ok inv

abbrev pub is_other_store : Option ℕ → ℕ → Bool
is_other_store none owner = false
is_other_store (some store) owner = not (owner == store)

abbrev pub status_event : StatusRequest → OrderStatus → OrderStatusEvent
status_event req old = record {
  order_id = req.order_id;
  status_from = some old;
  status_to = req.new_status;
  actor_id = req.actor_id;
  created_at = req.now;
}

-- The transition of an order that was found.
unfoldable pub move_order : StatusRequest → Order → Kitchen → Result Kitchen
move_order req order st = do
  raise_if (is_other_store req.store_id order.store_id) 404 order_not_found
  raise_if (is_terminal order.status) 409 terminal_state
  validate_transition st req order.status
  raise_if (is_cancelled req.new_status && ltb_ℤ (pos 0) (net_paid order)) 409 payment_outstanding
  inv ← settle_stock req order.status order.store_id st.inventory
  ok (record {
    orders = set_order req.order_id (record order { status = req.new_status }) st.orders;
    inventory = inv;
    events = status_event req order.status ∷ st.events;
  })

-- `update_order_status`
unfoldable pub update_order_status : StatusRequest → Kitchen → Result Kitchen
update_order_status req st = elim (st.orders req.order_id) [
  | none ↦ err (http 404 order_not_found)
  | some order ↦ move_order req order st
]
