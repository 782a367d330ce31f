-- ===== src/Services/OrderService.antt =====
-- app/services/order_service.py. What the source draws from its surroundings is an argument: the new
-- UUID, the time and the setting `day_order_expiry_seconds`; and what became of the call of the
-- broker, which is made after the first block has been committed.
pub mod Admission
pub mod Cash
pub mod Repeats
pub mod Trail
pub mod Placement
use Prim.Native.String.{◌++◌ as str_append}
use order_management_system.Prelude.{
  ℕ, ◌+◌, ◌*◌, ◌-◌, String, Bool, true, false, Option, none, some, [], ◌∷◌, leb, ◌==◌, ◌&&◌, not,
  str_eq, if◌then◌else◌,
}
use order_management_system.Domain.Enums.{
  OrderStatus, new, validated, routed, day, order_created, order_validated, validation_failed,
  order_routed, order_rejected, status_eq, tif_index, side_index, type_index, is_buy,
}
use order_management_system.Domain.Errors.{Result, ok, err, duplicate_order, broker_unavailable}
use order_management_system.Domain.OrderRules.{
  required_buying_power, ensure_sufficient_buying_power,
}
use order_management_system.Models.{Db, Order, Account, OrderCreate, available_cash, text, decimal}
use order_management_system.Persistence.Session.{Tx, pure, raise, gets, begin, check, ◌>>=◌, ◌>>◌}
use order_management_system.Persistence.Orders
use order_management_system.Persistence.Accounts
use order_management_system.Persistence.Accounts.{require_account}
use order_management_system.Services.Lifecycle.{append_event, transition}

pub record Surroundings : Type 0 where
  pub order_id : ℕ
  pub now : ℕ
  pub day_order_expiry_seconds : ℕ

unfoldable pub order_matches_request : Order → OrderCreate → Bool
order_matches_request order payload =
    order.account_id == payload.account_id
    && str_eq order.client_order_id payload.client_order_id
    && str_eq order.symbol payload.symbol
    && side_index order.side == side_index payload.side
    && type_index order.order_type == type_index payload.order_type
    && tif_index order.time_in_force == tif_index payload.time_in_force
    && order.quantity == payload.quantity
    && order.price == payload.price

unfoldable pub initial_order : Surroundings → OrderCreate → Order
initial_order env payload = record {
  id = env.order_id;
  client_order_id = payload.client_order_id;
  idempotency_key = payload.idempotency_key;
  account_id = payload.account_id;
  symbol = payload.symbol;
  side = payload.side;
  order_type = payload.order_type;
  time_in_force = payload.time_in_force;
  quantity = payload.quantity;
  price = payload.price;
  filled_quantity = 0;
  cancelled_quantity = 0;
  remaining_quantity = payload.quantity;
  average_fill_price = none;
  status = new;
  rejection_reason = none;
  expires_at =
      if tif_index payload.time_in_force == tif_index day
      then some (env.now + env.day_order_expiry_seconds)
      else none;
  version = 1;
}

-- The reservation of a buy order. It is kept exactly; its column rounds it to eight places, which changes
-- nothing of an amount that has no more.
unfoldable pub reserve : Order → ℕ → Account → Tx (Unit {0})
reserve order required_cash account =
    if is_buy order.side
    then Accounts.save (record account {
      reserved_cash = account.reserved_cash + required_cash;
      version = account.version + 1;
    })
    else pure tt

-- The branch without enough buying power: the order is rejected, and kept.
unfoldable pub reject_order : Order → Tx Order
reject_order order =
    let reason : String = "Insufficient buying power" in
    transition (record order { rejection_reason = some reason }) OrderStatus.rejected
      validation_failed (("reason", text reason) ∷ [])

unfoldable pub route_order : Order → ℕ → Account → Tx Order
route_order order required_cash account = do
  accepted ← transition order validated order_validated []
  reserve accepted required_cash account
  transition accepted routed order_routed []

-- A new order, whose request has not been seen before; and `should_route`.
unfoldable pub place_order : Surroundings → OrderCreate → Account → Tx (Order × Bool)
place_order env payload account =
    let order = initial_order env payload in
    let required_cash = required_buying_power payload.side payload.quantity payload.price in
    do
      Orders.add order
      append_event order order_created none (some new) (
          ("client_order_id", text order.client_order_id)
          ∷ ("symbol", text order.symbol)
          ∷ ("quantity", decimal order.quantity)
          ∷ [])
      elim (ensure_sufficient_buying_power (available_cash account) required_cash) [
        | err _ ↦ do rejected ← reject_order order; pure (rejected, false)
        | ok _ ↦ do placed ← route_order order required_cash account; pure (placed, true)
      ]

-- The first block of `create_order`.
unfoldable pub creation_block : Surroundings → OrderCreate → Tx (Order × Bool)
creation_block env payload = do
  account ← require_account payload.account_id
  by_key ← gets (Orders.by_idempotency_key payload.account_id payload.idempotency_key)
  elim by_key [
    | some existing ↦
        if not (order_matches_request existing payload)
        then raise (duplicate_order payload.client_order_id)
        else pure (existing, false)
    | none ↦ do
      by_client ← gets (Orders.by_client_order_id payload.account_id payload.client_order_id)
      elim by_client [
        | some _ ↦ raise (duplicate_order payload.client_order_id)
        | none ↦ place_order env payload account
      ]
  ]

-- A subtraction that leaves a negative number breaks a check constraint of the table.
unfoldable pub release_routing : Order → Account → Tx (Unit {0})
release_routing order account =
    if is_buy order.side
    then (do
      check (leb (order.remaining_quantity * order.price) account.reserved_cash)
      Accounts.save (record account {
        reserved_cash = account.reserved_cash - order.remaining_quantity * order.price;
        version = account.version + 1;
      }))
    else pure tt

unfoldable pub fail_routing : Order → String → Tx (Unit {0})
fail_routing order reason = do
  account ← require_account order.account_id
  release_routing order account
  let text_reason : String = str_append "Broker routing failed: " reason
  transition (record order { rejection_reason = some text_reason }) OrderStatus.rejected
      order_rejected (("reason", text text_reason) ∷ [])
  pure tt

-- `_mark_routing_failure`, a block of its own.
unfoldable pub routing_failure_block : ℕ → String → Tx (Unit {0})
routing_failure_block order_id reason = do
  found ← gets (Orders.lookup_order order_id)
  elim found [
    | none ↦ pure tt
    | some order ↦
        if not (status_eq order.status routed) then pure tt else fail_routing order reason
  ]

unfoldable pub mark_routing_failure : ℕ → String → Db → Result (Unit {0}) × Db
mark_routing_failure order_id reason = begin (routing_failure_block order_id reason)

-- What is left of `create_order` after its first block; `failure` is the text of the exception that
-- the broker raised, if it did.
unfoldable pub submit : Option String → Result (Order × Bool) × Db → Result Order × Db
submit failure (err e, db) = (err e, db)
submit none (ok (order, should_route), db) = (ok order, db)
submit (some reason) (ok (order, false), db) = (ok order, db)
submit (some reason) (ok (order, true), db) =
    let (r, db') = mark_routing_failure order.id reason db in
    elim r [ ok _ ↦ (err broker_unavailable, db') | err e ↦ (err e, db') ]

unfoldable pub create_order : Surroundings → OrderCreate → Option String → Db → Result Order × Db
create_order env payload failure db = submit failure (begin (creation_block env payload) db)
