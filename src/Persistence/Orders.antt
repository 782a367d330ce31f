-- ===== src/Persistence/Orders.antt =====
-- app/repositories/order_repository.py. An order that a service changes is written back whole by
-- `save`, with its check constraints; the source leaves that to the session's flush.
use order_management_system.Prelude.{
  ℕ, String, Option, [], ◌∷◌, ◌++◌, ◌==◌, str_eq, ◌&&◌, not, nat_eq, string_eq,
}
use order_management_system.Prelude.Table.{find, find_where, replace, is_some}
use order_management_system.Models.{
  Db, Order, OrderEvent, Fill, order_checks, fill_checks, order_columns, fill_columns,
}
use order_management_system.Persistence.Session.{
  Tx, gets, modify, check, check_columns, ◌>>=◌, ◌>>◌,
}

-- The row with a primary key.
abbrev pub lookup_order : ℕ → Db → Option Order
lookup_order order_id db = find (λ (o : Order). o.id) order_id db.orders

abbrev pub get_for_update : ℕ → Tx (Option Order)
get_for_update order_id = gets (lookup_order order_id)

abbrev pub by_idempotency_key : ℕ → String → Db → Option Order
by_idempotency_key account_id key db =
    find_where (λ (o : Order). o.account_id == account_id && str_eq o.idempotency_key key) db.orders

abbrev pub by_client_order_id : ℕ → String → Db → Option Order
by_client_order_id account_id client_order_id db =
    find_where
      (λ (o : Order). o.account_id == account_id && str_eq o.client_order_id client_order_id)
      db.orders

abbrev pub save : Order → Tx (Unit {0})
save order = do
  check_columns (order_columns order)
  check (order_checks order)
  modify (λ db. record db { orders = replace (λ (o : Order). o.id) order db.orders })

-- `add`: the primary key and the two unique constraints, then the check constraints.
abbrev pub add : Order → Tx (Unit {0})
add order = do
  check_columns (order_columns order)
  same_id ← gets (lookup_order order.id)
  check (not (is_some same_id))
  same_client ← gets (by_client_order_id order.account_id order.client_order_id)
  check (not (is_some same_client))
  same_key ← gets (by_idempotency_key order.account_id order.idempotency_key)
  check (not (is_some same_key))
  check (order_checks order)
  modify (λ db. record db { orders = db.orders ++ order ∷ [] })

abbrev pub add_event : OrderEvent → Tx (Unit {0})
add_event event = modify (λ db. record db { order_events = db.order_events ++ event ∷ [] })

-- `add_fill`: an event id and an execution id stand in one fill at most.
abbrev pub add_fill : Fill → Tx (Unit {0})
add_fill fill = do
  check_columns (fill_columns fill)
  same_event ← gets (λ db. find (λ (f : Fill). f.broker_event_id) fill.broker_event_id db.fills)
  check (not (is_some same_event))
  same_execution ← gets (λ db. find (λ (f : Fill). f.execution_id) fill.execution_id db.fills)
  check (not (is_some same_execution))
  check (fill_checks fill)
  modify (λ db. record db { fills = db.fills ++ fill ∷ [] })
