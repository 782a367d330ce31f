-- ===== src/Models.antt =====
-- The rows of the database (app/models), the requests and broker messages (app/schemas), and the
-- database as a whole. A quantity counts units of 10^-8, a price units of its own, and an amount of
-- cash units of the two together. Identifiers and points in time are numbers. Left out: the columns
-- `created_at` and `updated_at`, and the primary keys of rows that nothing refers to.
use Prim.Native.String.{count}
use order_management_system.Prelude.{
  ℕ, ◌+◌, String, Bool, true, Option, none, some, List, ◌==◌, ltb, leb, ◌&&◌,
}
use order_management_system.Prelude.Int.{ℤ, sub_ℕ, abs}
use order_management_system.Domain.Enums.{
  OrderSide, OrderType, TimeInForce, OrderStatus, BrokerEventType, OrderEventType,
}

pub record Account : Type 0 where
  pub id : ℕ
  pub user_id : String
  pub currency : String
  pub cash_balance : ℕ
  pub reserved_cash : ℕ
  pub version : ℕ

abbrev pub available_cash : Account → ℤ
available_cash a = sub_ℕ a.cash_balance a.reserved_cash

pub record Order : Type 0 where
  pub id : ℕ
  pub client_order_id : String
  pub idempotency_key : String
  pub account_id : ℕ
  pub symbol : String
  pub side : OrderSide
  pub order_type : OrderType
  pub time_in_force : TimeInForce
  pub quantity : ℕ
  pub price : ℕ
  pub filled_quantity : ℕ
  pub cancelled_quantity : ℕ
  pub remaining_quantity : ℕ
  pub average_fill_price : Option ℕ
  pub status : OrderStatus
  pub rejection_reason : Option String
  pub expires_at : Option ℕ
  pub version : ℕ

pub record Fill : Type 0 where
  pub order_id : ℕ
  pub broker_event_id : ℕ
  pub execution_id : String
  pub quantity : ℕ
  pub price : ℕ
  pub executed_at : ℕ

-- A value under a key of the JSON column `event_data`, before it is turned into text.
pub data DataValue : Type 0 where
  text : String → DataValue
  optional_text : Option String → DataValue
  decimal : ℕ → DataValue
  uuid : ℕ → DataValue

pub record OrderEvent : Type 0 where
  pub order_id : ℕ
  pub event_type : OrderEventType
  pub previous_status : Option OrderStatus
  pub new_status : Option OrderStatus
  pub event_data : List (String × DataValue)

pub record Position : Type 0 where
  pub account_id : ℕ
  pub symbol : String
  pub net_quantity : ℤ
  pub average_entry_price : ℕ
  pub realized_pnl : ℤ
  pub unrealized_pnl : ℤ
  pub last_mark_price : Option ℕ

pub record MarketPrice : Type 0 where
  pub symbol : String
  pub price : ℕ
  pub observed_at : ℕ

pub data Outcome : Type 0 where
  applied ignored : Outcome

pub record ProcessedBrokerEvent : Type 0 where
  pub broker_event_id : ℕ
  pub order_id : ℕ
  pub event_type : BrokerEventType
  pub broker_timestamp : ℕ
  pub outcome : Outcome
  pub details : Option String

-- The check constraints of each table that the types do not give.
abbrev pub account_checks : Account → Bool
account_checks a = leb a.reserved_cash a.cash_balance

abbrev pub order_checks : Order → Bool
order_checks o =
    ltb 0 o.quantity
    && ltb 0 o.price
    && o.filled_quantity + o.cancelled_quantity + o.remaining_quantity == o.quantity

abbrev pub fill_checks : Fill → Bool
fill_checks f = ltb 0 f.quantity && ltb 0 f.price

abbrev pub position_checks : Position → Bool
position_checks p = elim p.last_mark_price [ none ↦ true | some m ↦ ltb 0 m ]

-- What the columns take: `String(n)` a text of at most n characters, and `Numeric(24, 8)` sixteen digits
-- before the point, of an amount that is rounded to eight after it.
unfoldable pub text_fits : ℕ → String → Bool
text_fits most s = leb (count s) most

unfoldable pub amount_fits : ℕ → Bool
amount_fits units = ltb units 1000000000000000000000000

-- Of cash, and of profits and losses.
unfoldable pub cash_fits : ℕ → Bool
cash_fits units = ltb (units + 50000000) 100000000000000000000000000000000

unfoldable pub optional_fits : {A : Type 0} → (A → Bool) → Option A → Bool
optional_fits p none = true
optional_fits p (some a) = p a

unfoldable pub account_texts_fit : String → String → Bool
account_texts_fit user_id currency = text_fits 100 user_id && text_fits 3 currency

-- The reserve is no more than the cash.
abbrev pub account_columns : Account → Bool
account_columns a = account_texts_fit a.user_id a.currency && cash_fits a.cash_balance

unfoldable pub order_texts_fit : String → String → String → Bool
order_texts_fit client_order_id idempotency_key symbol =
    text_fits 100 client_order_id && text_fits 100 idempotency_key && text_fits 32 symbol

-- The other quantities are parts of the whole.
abbrev pub order_columns : Order → Bool
order_columns o =
    order_texts_fit o.client_order_id o.idempotency_key o.symbol
    && amount_fits o.quantity
    && amount_fits o.price
    && optional_fits amount_fits o.average_fill_price
    && optional_fits (text_fits 500) o.rejection_reason

unfoldable pub fill_columns : Fill → Bool
fill_columns f = text_fits 100 f.execution_id && amount_fits f.quantity && amount_fits f.price

unfoldable pub position_columns : Position → Bool
position_columns p =
    text_fits 32 p.symbol
    && amount_fits (abs p.net_quantity)
    && amount_fits p.average_entry_price
    && cash_fits (abs p.realized_pnl)
    && cash_fits (abs p.unrealized_pnl)
    && optional_fits amount_fits p.last_mark_price

unfoldable pub price_columns : MarketPrice → Bool
price_columns m = text_fits 32 m.symbol && amount_fits m.price

-- A valid request for an order (app/schemas/order.py).
pub record OrderCreate : Type 0 where
  pub client_order_id : String
  pub idempotency_key : String
  pub account_id : ℕ
  pub symbol : String
  pub side : OrderSide
  pub order_type : OrderType
  pub time_in_force : TimeInForce
  pub quantity : ℕ
  pub price : ℕ

-- What the broker reports (app/schemas/broker.py).
pub record BrokerExecutionEvent : Type 0 where
  pub event_id : ℕ
  pub event_type : BrokerEventType
  pub order_id : ℕ
  pub timestamp : ℕ
  pub filled_quantity : ℕ
  pub fill_price : Option ℕ
  pub execution_id : Option String
  pub reason : Option String

pub record Db : Type 0 where
  pub accounts : List Account
  pub orders : List Order
  pub fills : List Fill
  pub order_events : List OrderEvent
  pub positions : List Position
  pub market_prices : List MarketPrice
  pub processed_events : List ProcessedBrokerEvent
