-- ===== src/Api/Orders.antt =====
-- app/api/orders.py, with the methods of the services that it calls.
use order_management_system.Prelude.{
  ℕ, String, Bool, Option, none, some, List, leb, ◌&&◌, if◌then◌else◌,
}
use order_management_system.Domain.Enums.{OrderStatus}
use order_management_system.Domain.Errors.{Result, ok, err, order_not_found}
use order_management_system.Models.{Db, Order, OrderEvent, Fill}
use order_management_system.Persistence.Orders.{lookup_order}
use order_management_system.Persistence.Queries.{list_fills, list_events}
use order_management_system.Persistence.Queries
use order_management_system.Schemas.{OrderInput, validate_order}
use order_management_system.Services.OrderService.{Surroundings}
use order_management_system.Services.OrderService
use order_management_system.Services.CancellationService.{request_and_notify}
use order_management_system.Api.{Response, unprocessable, respond}

unfoldable pub create_order :
    Surroundings
    → (String → String)
    → (String → String)
    → OrderInput
    → Option String
    → Db
    → Response Order × Db
create_order env strip upper input outage db = elim (validate_order strip upper input) [
  | none ↦ (unprocessable, db)
  | some payload ↦
      let (r, db') = OrderService.create_order env payload outage db in (respond 201 r, db')
]

-- `Query(default=100, ge=1, le=500)` and `Query(default=0, ge=0)`
unfoldable pub list_orders :
    Option ℕ → Option OrderStatus → Bool → ℕ → ℕ → Db → Response (List Order)
list_orders account_id status open_only limit offset db =
    if leb 1 limit && leb limit 500
    then respond 200 (ok (Queries.list_orders account_id status open_only limit offset db))
    else unprocessable

-- `OrderService.get_order`
unfoldable pub found_order : ℕ → Db → Result Order
found_order order_id db = elim (lookup_order order_id db) [
  | none ↦ err (order_not_found order_id)
  | some order ↦ ok order
]

unfoldable pub get_order : ℕ → Db → Response Order
get_order order_id db = respond 200 (found_order order_id db)

pub record CancelOrderResponse : Type 0 where
  pub order_id : ℕ
  pub status : OrderStatus
  pub message : String

abbrev client_reason : String
client_reason = "Client requested cancellation"

abbrev pub accepted : Result Order → Result CancelOrderResponse
accepted (ok order) = ok (record {
  order_id = order.id;
  status = order.status;
  message = "Cancellation request accepted";
})
accepted (err e) = err e

unfoldable pub cancel_order : ℕ → Option String → Db → Response CancelOrderResponse × Db
cancel_order order_id outage db =
    let (r, db') = request_and_notify order_id client_reason outage db in
    (respond 202 (accepted r), db')

unfoldable pub list_order_fills : ℕ → Db → Response (List Fill)
list_order_fills order_id db = elim (found_order order_id db) [
  | err e ↦ respond 200 (err e)
  | ok order ↦ respond 200 (ok (list_fills order_id db))
]

unfoldable pub list_order_events : ℕ → Db → Response (List OrderEvent)
list_order_events order_id db = elim (found_order order_id db) [
  | err e ↦ respond 200 (err e)
  | ok order ↦ respond 200 (ok (list_events order_id db))
]
