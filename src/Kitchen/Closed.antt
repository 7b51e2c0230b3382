-- ===== src/Kitchen/Closed.antt =====
-- Orders that were delivered or cancelled, under update_order_status of
-- apps/api/app/services/kitchen_service.py.
use sweetops.Base.{ℕ, ◌≡◌, ◌⊎◌, some, List, [], ◌∷◌, ◌==◌, if◌then◌else◌}
use sweetops.Payment.Model.{Order, OrderStatus, delivered, cancelled}
use sweetops.Kitchen.{OrderStatusEvent, Kitchen}

-- The recorded events of an order.
abbrev pub events_of : ℕ → List OrderStatusEvent → List OrderStatusEvent
events_of order [] = []
events_of order (e ∷ es) =
    if e.order_id == order then e ∷ events_of order es else events_of order es

abbrev pub IsClosed : OrderStatus → Type 0
IsClosed status = (status ≡ delivered) ⊎ (status ≡ cancelled)

-- The order's row, and what is recorded of it, as they are.
record Stands (id : ℕ) (order : Order) (st st' : Kitchen) : Type 0 where
  here : st'.orders id ≡ some order
  events : events_of id st'.events ≡ events_of id st.events
