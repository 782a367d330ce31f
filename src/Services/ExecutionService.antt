-- ===== src/Services/ExecutionService.antt =====
-- app/services/execution_service.py: what a broker event does to an order, its account and position.
pub mod Applied
pub mod Cash
pub mod Duplicates
pub mod Logging
pub mod Rows
pub mod Seen
pub mod Settling
pub mod Trail
use Prim.Native.String.{◌++◌ as str_append}
use order_management_system.Prelude.{
  ℕ, ◌+◌, ◌-◌, ◌*◌, String, Bool, true, false, Option, none, some, List, [], ◌∷◌, ◌++◌, ltb, leb,
  ◌==◌, ◌&&◌, ◌||◌, not, str_eq, if◌then◌else◌,
}
use order_management_system.Prelude.Table.{is_some}
use order_management_system.Prelude.Uuid.{uuid_text}
use order_management_system.Domain.Enums.{
  OrderStatus, routed, partially_filled, filled, cancel_pending, is_buy, BrokerEventType, full_fill,
  partial_fill, full_fill_received, partial_fill_received, order_rejected, order_cancelled,
  broker_event_ignored, status_eq, status_in, status_value, broker_event_value, tif_index, ioc,
}
use order_management_system.Domain.Errors.{Result, ok, err, order_not_found, invalid_fill}
use order_management_system.Domain.PositionRules.{divide}
use order_management_system.Models.{
  Db, Order, Account, Fill, BrokerExecutionEvent, applied, ignored, DataValue, text, optional_text,
  decimal, uuid,
}
use order_management_system.Persistence.Session.{
  Tx, pure, raise, lift, gets, or_raise, begin, ◌>>=◌, ◌>>◌,
}
use order_management_system.Persistence.Orders
use order_management_system.Persistence.Accounts
use order_management_system.Persistence.Accounts.{require_account}
use order_management_system.Persistence.Events
use order_management_system.Services.Lifecycle.{append_event, transition}
use order_management_system.Services.PositionService.{apply_execution}

-- Whether an event was applied, and the reason if it was not.
abbrev pub Reply : Type 0
Reply = Bool × Option String

-- `s or d`, for a text that may be missing or empty.
abbrev pub or_else : Option String → String → String
or_else none d = d
or_else (some s) d = if str_eq s "" then d else s

-- The statuses in which a fill or a cancellation by the broker is taken.
abbrev pub live_statuses : List OrderStatus
live_statuses = routed ∷ partially_filled ∷ cancel_pending ∷ []

abbrev pub is_full_fill : BrokerEventType → Bool
is_full_fill full_fill = true
is_full_fill _ = false

abbrev pub filled_value : Order → ℕ
filled_value order = elim order.average_fill_price [
  | none ↦ 0
  | some average ↦ order.filled_quantity * average
]

-- The order after a fill: its average price, its quantities and its version.
unfoldable pub fill_order : Order → ℕ → ℕ → Result Order
fill_order order fill_quantity fill_price =
    let new_filled = order.filled_quantity + fill_quantity in
    elim (divide (filled_value order + fill_quantity * fill_price) new_filled) [
      | err e ↦ err e
      | ok average ↦ ok (record order {
        average_fill_price = some average;
        filled_quantity = new_filled;
        remaining_quantity = order.remaining_quantity - fill_quantity;
        version = order.version + 1;
      })
    ]

abbrev inconsistent_reservation : String
inconsistent_reservation = "Reserved cash is inconsistent with the order"

-- The account after a fill: a buy releases its share of the reservation and pays, a sell is paid. The
-- amounts are exact; `save` refuses those that their columns do not take.
unfoldable pub settle : Order → ℕ → ℕ → Account → Result Account
settle order fill_quantity fill_price account =
    let notional = fill_quantity * fill_price in
    let reserved_release = fill_quantity * order.price in
    if is_buy order.side
    then (if ltb account.reserved_cash reserved_release
        then err (invalid_fill inconsistent_reservation)
        else if ltb account.cash_balance notional
        then err (invalid_fill "Fill would create a negative cash balance")
        else ok (record account {
          reserved_cash = account.reserved_cash - reserved_release;
          cash_balance = account.cash_balance - notional;
          version = account.version + 1;
        }))
    else ok (record account {
      cash_balance = account.cash_balance + notional;
      version = account.version + 1;
    })

unfoldable pub release_remaining_reservation : Account → Order → Result Account
release_remaining_reservation account order =
    let release_amount = order.remaining_quantity * order.price in
    if not (is_buy order.side) || leb order.remaining_quantity 0
    then ok account
    else if ltb account.reserved_cash release_amount
    then err (invalid_fill inconsistent_reservation)
    else ok (record account {
      reserved_cash = account.reserved_cash - release_amount;
      version = account.version + 1;
    })

unfoldable pub cancel_remaining : Order → String → List (String × DataValue) → Tx Order
cancel_remaining order reason event_data = do
  account ← require_account order.account_id
  released ← lift (release_remaining_reservation account order)
  Accounts.save released
  transition
      (record order {
        cancelled_quantity = order.cancelled_quantity + order.remaining_quantity;
        remaining_quantity = 0;
        version = order.version + 1;
      })
      OrderStatus.cancelled order_cancelled
      (event_data
        ++ ("cancelled_quantity", decimal order.remaining_quantity) ∷ ("reason", text reason) ∷ [])

-- The audit entry of a fill that leaves the status alone.
abbrev pub append_partial_fill : Order → List (String × DataValue) → Tx (Unit {0})
append_partial_fill order event_data =
    append_event order partial_fill_received (some order.status) (some order.status) event_data

unfoldable pub cancel_ioc_remainder : Order → List (String × DataValue) → Tx Order
cancel_ioc_remainder order event_data = do
  append_partial_fill order event_data
  cancel_remaining order "IOC remainder cancelled" event_data

-- The end of `_apply_fill`: the order with the status that it moves to. The caller answers that the
-- event was applied.
unfoldable pub after_fill : Order → List (String × DataValue) → Tx Order
after_fill order event_data =
    if order.remaining_quantity == 0
    then transition order filled full_fill_received event_data
    else if tif_index order.time_in_force == tif_index ioc
    then cancel_ioc_remainder order event_data
    else if status_eq order.status routed
    then transition order partially_filled partial_fill_received event_data
    else append_partial_fill order event_data >> pure order

unfoldable pub new_fill : Order → BrokerExecutionEvent → ℕ → Fill
new_fill order event fill_price = record {
  order_id = order.id;
  broker_event_id = event.event_id;
  execution_id = or_else event.execution_id (uuid_text event.event_id);
  quantity = event.filled_quantity;
  price = fill_price;
  executed_at = event.timestamp;
}

abbrev pub fill_data : BrokerExecutionEvent → ℕ → List (String × DataValue)
fill_data event fill_price =
    ("broker_event_id", uuid event.event_id)
    ∷ ("execution_id", optional_text event.execution_id)
    ∷ ("quantity", decimal event.filled_quantity)
    ∷ ("price", decimal fill_price)
    ∷ []

-- `_apply_fill` between its guards and the choice of the status.
unfoldable pub book_fill : Order → BrokerExecutionEvent → ℕ → Tx Order
book_fill order event fill_price = do
  taken ← lift (fill_order order event.filled_quantity fill_price)
  Orders.save taken
  Orders.add_fill (new_fill order event fill_price)
  account ← require_account order.account_id
  settled ← lift (settle order event.filled_quantity fill_price account)
  Accounts.save settled
  apply_execution order.account_id order.symbol order.side event.filled_quantity fill_price
  pure taken

-- `_apply_fill` past its guards.
unfoldable pub execute_fill : Order → BrokerExecutionEvent → ℕ → Tx Reply
execute_fill order event fill_price = do
  taken ← book_fill order event fill_price
  after_fill taken (fill_data event fill_price)
  pure (true, none)

-- The guards of `_apply_fill` on the quantity.
unfoldable pub apply_priced_fill : Order → BrokerExecutionEvent → ℕ → Tx Reply
apply_priced_fill order event fill_price =
    if leb event.filled_quantity 0
    then raise (invalid_fill "Fill quantity must be positive")
    else if ltb order.remaining_quantity event.filled_quantity
    then pure (false, some "Fill quantity exceeds remaining quantity")
    else if is_full_fill event.event_type && not (event.filled_quantity == order.remaining_quantity)
    then pure (false, some "Full-fill event does not consume remaining quantity")
    else execute_fill order event fill_price

unfoldable pub apply_fill : Order → BrokerExecutionEvent → Tx Reply
apply_fill order event =
    if not (status_in order.status live_statuses)
    then pure (false, some (str_append "Order is already " (status_value order.status)))
    else elim event.fill_price [
      | none ↦ raise (invalid_fill "Fill price is required")
      | some fill_price ↦ apply_priced_fill order event fill_price
    ]

unfoldable pub apply_rejection : Order → BrokerExecutionEvent → Tx Reply
apply_rejection order event =
    if not (status_eq order.status routed)
    then pure
        (false, some (str_append "Order cannot be rejected from " (status_value order.status)))
    else (do
      account ← require_account order.account_id
      released ← lift (release_remaining_reservation account order)
      Accounts.save released
      let reason : String = or_else event.reason "Rejected by broker"
      transition (record order { rejection_reason = some reason }) OrderStatus.rejected
          order_rejected (("broker_event_id", uuid event.event_id) ∷ ("reason", text reason) ∷ [])
      pure (true, none))

unfoldable pub apply_cancellation : Order → BrokerExecutionEvent → Tx Reply
apply_cancellation order event =
    if not (status_in order.status live_statuses)
    then pure
        (false, some (str_append "Order cannot be cancelled from " (status_value order.status)))
    else (do
      cancel_remaining order (or_else event.reason "Cancelled by broker")
          (("broker_event_id", uuid event.event_id) ∷ [])
      pure (true, none))

-- `_dispatch`. The last answer of the source is for a type of event that does not exist.
unfoldable pub dispatch : BrokerEventType → Order → BrokerExecutionEvent → Tx Reply
dispatch full_fill = apply_fill
dispatch partial_fill = apply_fill
dispatch BrokerEventType.rejected = apply_rejection
dispatch BrokerEventType.cancelled = apply_cancellation

-- The record of the event, and the audit entry of one that was ignored.
unfoldable pub record_outcome : Order → BrokerExecutionEvent → Reply → Tx Bool
record_outcome order event (was_applied, reason) = do
  Events.add (record {
    broker_event_id = event.event_id;
    order_id = event.order_id;
    event_type = event.event_type;
    broker_timestamp = event.timestamp;
    outcome = if was_applied then applied else ignored;
    details = reason;
  })
  if was_applied then pure true else do
    append_event order broker_event_ignored (some order.status) (some order.status) (
        ("broker_event_id", uuid event.event_id)
        ∷ ("event_type", text (broker_event_value event.event_type))
        ∷ ("reason", optional_text reason)
        ∷ [])
    pure false

unfoldable pub handle_new_event : Order → BrokerExecutionEvent → Tx Bool
handle_new_event order event = do
  reply ← dispatch event.event_type order event
  record_outcome order event reply

unfoldable pub handle_event : BrokerExecutionEvent → Tx Bool
handle_event event = do
  found ← gets (Orders.lookup_order event.order_id)
  order ← or_raise (order_not_found event.order_id) found
  processed ← gets (Events.lookup_event event.event_id)
  if is_some processed then pure false else handle_new_event order event

unfoldable pub process_event : BrokerExecutionEvent → Db → Result Bool × Db
process_event event = begin (handle_event event)
