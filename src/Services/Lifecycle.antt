-- ===== src/Services/Lifecycle.antt =====
-- app/services/order_lifecycle.py
use order_management_system.Prelude.{◌+◌, String, Option, some, List}
use order_management_system.Domain.Enums.{OrderStatus, OrderEventType}
use order_management_system.Domain.StateMachine.{ensure_transition_allowed}
use order_management_system.Models.{Order, DataValue}
use order_management_system.Persistence.Session.{Tx, pure, lift, ◌>>◌}
use order_management_system.Persistence.Orders

abbrev pub append_event :
    Order
    → OrderEventType
    → Option OrderStatus
    → Option OrderStatus
    → List (String × DataValue)
    → Tx (Unit {0})
append_event order event_type previous_status new_status event_data = Orders.add_event (record {
  order_id = order.id;
  event_type = event_type;
  previous_status = previous_status;
  new_status = new_status;
  event_data = event_data;
})

-- The order with its new status is returned, since the source changes it in place.
unfoldable pub transition :
    Order → OrderStatus → OrderEventType → List (String × DataValue) → Tx Order
transition order target_status event_type event_data = do
  lift (ensure_transition_allowed order.status target_status)
  let moved : Order = record order { status = target_status; version = order.version + 1 }
  Orders.save moved
  append_event moved event_type (some order.status) (some target_status) event_data
  pure moved
