-- ===== src/References/Blocks.antt =====
-- The parts that the blocks of app/services are made of, and the blocks that only write accounts, orders
-- and the audit trail.
use Prim.Native.String.{◌++◌ as str_append}
use order_management_system.Prelude.{
  ℕ, ◌+◌, String, true, false, Option, none, some, List, [], ◌∷◌, ◌*◌, ◌-◌, leb, not, if◌then◌else◌,
}
use order_management_system.Domain.Enums.{
  OrderStatus, OrderEventType, cancel_pending, cancel_requested, status_eq, status_in, status_value,
  is_buy, order_rejected, routed, validated, order_validated, order_routed, validation_failed,
}
use order_management_system.Domain.StateMachine.{
  ensure_transition_allowed, cancellable_order_statuses,
}
use order_management_system.Domain.Errors.{account_not_found, order_not_found, invalid_cancellation}
use order_management_system.Models.{
  Db, Account, Order, DataValue, text, order_checks, account_checks, order_columns, account_columns,
}
use order_management_system.Persistence.Session.{pure}
use order_management_system.Persistence.Keeps.{
  Keeps, pure-Keeps, lift-Keeps, gets-Keeps, check-Keeps, check_columns-Keeps, modify-Keeps,
  or_raise-Keeps, raise-Keeps, if-Keeps, begin-Keeps, >>=-Keeps,
}
use order_management_system.Persistence.Orders
use order_management_system.Persistence.Accounts
use order_management_system.Persistence.Accounts.{require_account}
use order_management_system.Services.Lifecycle.{append_event, transition}
use order_management_system.Services.OrderService.{
  release_routing, fail_routing, routing_failure_block, mark_routing_failure, reserve, route_order,
  reject_order,
}
use order_management_system.Services.CancellationService.{
  request_of, cancellation_block, request_cancellation,
}
use order_management_system.References.{IsClosed}

module _ (P : Db → Type 0) (c : IsClosed P) where
  pub save_account-Keeps : (a : Account) → Keeps P (Accounts.save a)
  save_account-Keeps a =
      >>=-Keeps P (check_columns-Keeps P (account_columns a))
        λ _. >>=-Keeps P (check-Keeps P (account_checks a)) λ _. modify-Keeps P _ (c.save_account a)

  pub save_order-Keeps : (o : Order) → Keeps P (Orders.save o)
  save_order-Keeps o =
      >>=-Keeps P (check_columns-Keeps P (order_columns o))
        λ _. >>=-Keeps P (check-Keeps P (order_checks o)) λ _. modify-Keeps P _ (c.save_order o)

  pub append_event-Keeps :
      (o : Order) (e : OrderEventType) (s t : Option OrderStatus) (d : List (String × DataValue))
      → Keeps P (append_event o e s t d)
  append_event-Keeps o e s t d = modify-Keeps P _ λ db. c.write_trail _ db

  pub require_account-Keeps : (id : ℕ) → Keeps P (require_account id)
  require_account-Keeps id = >>=-Keeps P (gets-Keeps P _) (or_raise-Keeps P (account_not_found id))

  pub transition-Keeps :
      (o : Order) (t : OrderStatus) (e : OrderEventType) (d : List (String × DataValue))
      → Keeps P (transition o t e d)
  unfolding transition
  transition-Keeps o t e d =
      let moved : Order = record o { status = t; version = o.version + 1 } in
      >>=-Keeps P (lift-Keeps P (ensure_transition_allowed o.status t)) λ _.
        >>=-Keeps P (save_order-Keeps moved) λ _.
          >>=-Keeps P (append_event-Keeps moved e (some o.status) (some t) d)
            λ _. pure-Keeps P moved

  -- app/services/cancellation_service.py
  pub request_of-Keeps : (o : Order) (reason : String) → Keeps P (request_of o reason)
  unfolding request_of
  request_of-Keeps o reason =
      if-Keeps P (status_eq o.status cancel_pending) (pure-Keeps P (o, false)) (
        if-Keeps P (not (status_in o.status cancellable_order_statuses))
          (raise-Keeps P (
            invalid_cancellation
              (str_append "Order cannot be cancelled from " (status_value o.status))))
          (>>=-Keeps P
            (transition-Keeps o cancel_pending cancel_requested (("reason", text reason) ∷ []))
            λ moved. pure-Keeps P (moved, true)))

  pub request_cancellation_keeps :
      (id : ℕ) (reason : String) (db : Db) → P db → P (request_cancellation id reason db).1
  unfolding request_cancellation cancellation_block
  request_cancellation_keeps id reason = begin-Keeps P (cancellation_block id reason) (
      >>=-Keeps P (gets-Keeps P (Orders.lookup_order id)) λ found.
        >>=-Keeps P (or_raise-Keeps P (order_not_found id) found) λ o. request_of-Keeps o reason)

  -- `_mark_routing_failure`
  release_routing-Keeps : (o : Order) (a : Account) → Keeps P (release_routing o a)
  unfolding release_routing
  release_routing-Keeps o a =
      let left = a.reserved_cash - o.remaining_quantity * o.price in
      if-Keeps P (is_buy o.side)
        (>>=-Keeps P (check-Keeps P (leb (o.remaining_quantity * o.price) a.reserved_cash))
          λ _. save_account-Keeps (record a { reserved_cash = left; version = a.version + 1 }))
        (pure-Keeps P tt)

  fail_routing-Keeps : (o : Order) (reason : String) → Keeps P (fail_routing o reason)
  unfolding fail_routing
  fail_routing-Keeps o reason =
      let why : String = str_append "Broker routing failed: " reason in
      >>=-Keeps P (require_account-Keeps o.account_id) λ a.
        >>=-Keeps P (release_routing-Keeps o a) λ _.
          >>=-Keeps P
            (transition-Keeps (record o { rejection_reason = some why }) OrderStatus.rejected
              order_rejected (("reason", text why) ∷ []))
            λ _. pure-Keeps P tt

  failure_of-Keeps :
      (found : Option Order) (reason : String)
      → Keeps P (elim found [
        | none ↦ pure tt
        | some o ↦ if not (status_eq o.status routed) then pure tt else fail_routing o reason
      ])
  failure_of-Keeps none reason = pure-Keeps P tt
  failure_of-Keeps (some o) reason =
      if-Keeps P (not (status_eq o.status routed)) (pure-Keeps P tt) (fail_routing-Keeps o reason)

  pub mark_routing_failure_keeps :
      (id : ℕ) (reason : String) (db : Db) → P db → P (mark_routing_failure id reason db).1
  unfolding mark_routing_failure routing_failure_block
  mark_routing_failure_keeps id reason =
      begin-Keeps P (routing_failure_block id reason)
        (>>=-Keeps P (gets-Keeps P (Orders.lookup_order id)) λ found. failure_of-Keeps found reason)

  -- The first block of `create_order` once the new order stands in the table.
  reserve-Keeps : (o : Order) (cash : ℕ) (a : Account) → Keeps P (reserve o cash a)
  unfolding reserve
  reserve-Keeps o cash a =
      if-Keeps P (is_buy o.side)
        (save_account-Keeps
          (record a { reserved_cash = a.reserved_cash + cash; version = a.version + 1 }))
        (pure-Keeps P tt)

  pub route_order-Keeps : (o : Order) (cash : ℕ) (a : Account) → Keeps P (route_order o cash a)
  unfolding route_order
  route_order-Keeps o cash a =
      >>=-Keeps P (transition-Keeps o validated order_validated []) λ accepted.
        >>=-Keeps P (reserve-Keeps accepted cash a)
          λ _. transition-Keeps accepted OrderStatus.routed order_routed []

  pub reject_order-Keeps : (o : Order) → Keeps P (reject_order o)
  unfolding reject_order
  reject_order-Keeps o =
      transition-Keeps (record o { rejection_reason = some "Insufficient buying power" })
        OrderStatus.rejected validation_failed (("reason", text "Insufficient buying power") ∷ [])
