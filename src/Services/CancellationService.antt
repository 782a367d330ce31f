-- ===== src/Services/CancellationService.antt =====
-- app/services/cancellation_service.py. The broker is told of the cancellation after the commit, and
-- answers by an event; the exception that it may raise is an argument.
pub mod Answers
pub mod Cash
pub mod Trail
use Prim.Native.String.{◌++◌ as str_append}
use order_management_system.Prelude.{
  ℕ, String, Bool, true, false, Option, none, some, [], ◌∷◌, not, if◌then◌else◌,
}
use order_management_system.Domain.Enums.{
  cancel_pending, cancel_requested, status_eq, status_in, status_value,
}
use order_management_system.Domain.StateMachine.{cancellable_order_statuses}
use order_management_system.Domain.Errors.{
  Result, ok, err, order_not_found, invalid_cancellation, broker_error,
}
use order_management_system.Models.{Db, Order, text}
use order_management_system.Persistence.Session.{Tx, pure, raise, gets, or_raise, begin, ◌>>=◌}
use order_management_system.Persistence.Orders
use order_management_system.Services.Lifecycle.{transition}

-- The block once the order is found.
unfoldable pub request_of : Order → String → Tx (Order × Bool)
request_of order reason =
    if status_eq order.status cancel_pending
    then pure (order, false)
    else if not (status_in order.status cancellable_order_statuses)
    then raise (
        invalid_cancellation
          (str_append "Order cannot be cancelled from " (status_value order.status)))
    else (do
      moved ← transition order cancel_pending cancel_requested (("reason", text reason) ∷ [])
      pure (moved, true))

-- The block of `request_cancellation`: the order, and `should_notify_broker`.
unfoldable pub cancellation_block : ℕ → String → Tx (Order × Bool)
cancellation_block order_id reason = do
  found ← gets (Orders.lookup_order order_id)
  order ← or_raise (order_not_found order_id) found
  request_of order reason

-- The block, committed.
unfoldable pub request_cancellation : ℕ → String → Db → Result (Order × Bool) × Db
request_cancellation order_id reason = begin (cancellation_block order_id reason)

-- The call of the broker after the commit, which no handler guards; `outage` is the text of the
-- exception that the broker raised, if it did.
unfoldable pub notify_broker : Option String → Result (Order × Bool) × Db → Result Order × Db
notify_broker outage (err e, db) = (err e, db)
notify_broker outage (ok (order, false), db) = (ok order, db)
notify_broker none (ok (order, true), db) = (ok order, db)
notify_broker (some message) (ok (order, true), db) = (err (broker_error message), db)

-- `request_cancellation` with the call of the broker.
unfoldable pub request_and_notify : ℕ → String → Option String → Db → Result Order × Db
request_and_notify order_id reason outage db =
    notify_broker outage (request_cancellation order_id reason db)
