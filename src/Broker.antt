-- ===== src/Broker.antt =====
-- app/broker/fake.py: the events that the simulated broker sends for one order. What it draws at
-- random, the new ids and the time stamps are arguments.
pub mod Bounds
pub mod Tasks
use Prim.Native.String.{◌++◌ as str_append}
use order_management_system.Prelude.{
  ℕ, ◌*◌, ◌-◌, ◌/◌, String, Bool, true, false, Option, none, some, List, [], ◌∷◌, leb, ltb, ◌==◌,
  ◌&&◌, if◌then◌else◌, max,
}
use order_management_system.Prelude.Uuid.{uuid_text}
use order_management_system.Domain.Enums.{
  OrderSide, TimeInForce, ioc, tif_index, BrokerEventType, full_fill, partial_fill,
}
use order_management_system.Models.{Order, BrokerExecutionEvent}

-- app/schemas/broker.py
pub record BrokerOrder : Type 0 where
  pub order_id : ℕ
  pub symbol : String
  pub side : OrderSide
  pub time_in_force : TimeInForce
  pub quantity : ℕ
  pub remaining_quantity : ℕ
  pub price : ℕ

-- What `create_order` hands to the broker.
abbrev pub broker_order : Order → BrokerOrder
broker_order order = record {
  order_id = order.id;
  symbol = order.symbol;
  side = order.side;
  time_in_force = order.time_in_force;
  quantity = order.quantity;
  remaining_quantity = order.remaining_quantity;
  price = order.price;
}

pub data Drawn : Type 0 where
  draw_full draw_partial draw_rejected : Drawn

-- The draws, the ratio as a fraction; and for each event that may follow its ids and its time.
pub record Draws : Type 0 where
  pub outcome : Drawn
  pub ratio_above : ℕ
  pub ratio_below : ℕ
  pub follows : Bool
  pub event_id : ℕ
  pub execution : ℕ
  pub timestamp : ℕ
  pub next_event_id : ℕ
  pub next_execution : ℕ
  pub next_timestamp : ℕ

-- `_partial_quantity`: one step is one unit of quantity, and the product is rounded down to it.
unfoldable pub partial_quantity : ℕ → ℕ → ℕ → ℕ
partial_quantity remaining above below =
    let quantity = remaining * above / below in
    if leb quantity 0
    then remaining
    else if leb remaining quantity
    then max (remaining - 1) 1
    else quantity

abbrev pub simulated_execution : ℕ → String
simulated_execution execution = str_append "SIM-" (uuid_text execution)

unfoldable pub full_fill_event : BrokerOrder → ℕ → ℕ → ℕ → ℕ → BrokerExecutionEvent
full_fill_event order quantity event_id execution timestamp = record {
  event_id = event_id;
  event_type = full_fill;
  order_id = order.order_id;
  timestamp = timestamp;
  filled_quantity = quantity;
  fill_price = some order.price;
  execution_id = some (simulated_execution execution);
  reason = none;
}

unfoldable pub rejection_event : BrokerOrder → Draws → BrokerExecutionEvent
rejection_event order draws = record {
  event_id = draws.event_id;
  event_type = BrokerEventType.rejected;
  order_id = order.order_id;
  timestamp = draws.timestamp;
  filled_quantity = 0;
  fill_price = none;
  execution_id = none;
  reason = some "Rejected by simulated broker";
}

unfoldable pub partial_fill_event : BrokerOrder → Draws → BrokerExecutionEvent
partial_fill_event order draws = record {
  event_id = draws.event_id;
  event_type = partial_fill;
  order_id = order.order_id;
  timestamp = draws.timestamp;
  filled_quantity = partial_quantity order.remaining_quantity draws.ratio_above draws.ratio_below;
  fill_price = some order.price;
  execution_id = some (simulated_execution draws.execution);
  reason = none;
}

-- What may follow a partial fill: nothing for an IOC order, or the rest of the order.
unfoldable pub follow_up : BrokerOrder → Draws → List BrokerExecutionEvent
follow_up order draws =
    let remaining =
      order.remaining_quantity
      - partial_quantity order.remaining_quantity draws.ratio_above draws.ratio_below in
    if tif_index order.time_in_force == tif_index ioc
    then []
    else if ltb 0 remaining && draws.follows
    then full_fill_event order remaining draws.next_event_id draws.next_execution
        draws.next_timestamp
      ∷ []
    else []

-- The cases of `_simulate_order`.
unfoldable pub simulate_outcome : Drawn → BrokerOrder → Draws → List BrokerExecutionEvent
simulate_outcome draw_rejected order draws = rejection_event order draws ∷ []
simulate_outcome draw_full order draws =
    full_fill_event order order.remaining_quantity draws.event_id draws.execution draws.timestamp
    ∷ []
simulate_outcome draw_partial order draws = partial_fill_event order draws ∷ follow_up order draws

unfoldable pub simulate_order : BrokerOrder → Draws → List BrokerExecutionEvent
simulate_order order draws = simulate_outcome draws.outcome order draws

unfoldable pub simulate_cancellation : ℕ → String → ℕ → ℕ → BrokerExecutionEvent
simulate_cancellation order_id reason event_id timestamp = record {
  event_id = event_id;
  event_type = BrokerEventType.cancelled;
  order_id = order_id;
  timestamp = timestamp;
  filled_quantity = 0;
  fill_price = none;
  execution_id = none;
  reason = some reason;
}
