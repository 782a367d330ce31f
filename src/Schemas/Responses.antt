-- ===== src/Schemas/Responses.antt =====
-- The response models of app/schemas: what a client is shown of a row. The amounts of orders and fills
-- are texts with eight places. Left out, as in the rows: `created_at`, `updated_at` and the ids of rows
-- that nothing refers to.
use order_management_system.Prelude.{ℕ, ◌+◌, ◌<◌, ◌≡◌, String, Option, some, List, arith, nat_eq}
use order_management_system.Prelude.Int.{ℤ}
use order_management_system.Domain.Enums.{OrderSide, OrderType, TimeInForce, OrderStatus}
use order_management_system.Models.{Account, Order, Fill, available_cash}
use order_management_system.Schemas.Amount.{
  pow10, serialize_amount, serialize_decimal, read_amount, read-serialize_amount,
}

pub record OrderResponse : Type 0 where
  pub id : ℕ
  pub client_order_id : String
  pub account_id : ℕ
  pub symbol : String
  pub side : OrderSide
  pub order_type : OrderType
  pub time_in_force : TimeInForce
  pub quantity : List ℕ
  pub price : List ℕ
  pub filled_quantity : List ℕ
  pub cancelled_quantity : List ℕ
  pub remaining_quantity : List ℕ
  pub average_fill_price : Option (List ℕ)
  pub status : OrderStatus
  pub rejection_reason : Option String
  pub expires_at : Option ℕ

unfoldable pub order_response : Order → OrderResponse
order_response o = record {
  id = o.id;
  client_order_id = o.client_order_id;
  account_id = o.account_id;
  symbol = o.symbol;
  side = o.side;
  order_type = o.order_type;
  time_in_force = o.time_in_force;
  quantity = serialize_amount o.quantity;
  price = serialize_amount o.price;
  filled_quantity = serialize_amount o.filled_quantity;
  cancelled_quantity = serialize_amount o.cancelled_quantity;
  remaining_quantity = serialize_amount o.remaining_quantity;
  average_fill_price = serialize_decimal o.average_fill_price;
  status = o.status;
  rejection_reason = o.rejection_reason;
  expires_at = o.expires_at;
}

pub record FillResponse : Type 0 where
  pub order_id : ℕ
  pub broker_event_id : ℕ
  pub execution_id : String
  pub quantity : List ℕ
  pub price : List ℕ
  pub executed_at : ℕ

unfoldable pub fill_response : Fill → FillResponse
fill_response f = record {
  order_id = f.order_id;
  broker_event_id = f.broker_event_id;
  execution_id = f.execution_id;
  quantity = serialize_amount f.quantity;
  price = serialize_amount f.price;
  executed_at = f.executed_at;
}

pub record AccountResponse : Type 0 where
  pub id : ℕ
  pub user_id : String
  pub currency : String
  pub cash_balance : ℕ
  pub reserved_cash : ℕ
  pub available_cash : ℤ

unfoldable pub account_response : Account → AccountResponse
account_response a = record {
  id = a.id;
  user_id = a.user_id;
  currency = a.currency;
  cash_balance = a.cash_balance;
  reserved_cash = a.reserved_cash;
  available_cash = available_cash a;
}

-- The quantities of an order as a client reads them.
pub record Shown (r : OrderResponse) : Type 0 where
  pub quantity : ℕ
  pub filled : ℕ
  pub cancelled : ℕ
  pub remaining : ℕ
  pub quantity_text : read_amount r.quantity 0 ≡ some quantity
  pub filled_text : read_amount r.filled_quantity 0 ≡ some filled
  pub cancelled_text : read_amount r.cancelled_quantity 0 ≡ some cancelled
  pub remaining_text : read_amount r.remaining_quantity 0 ≡ some remaining
  pub adds_up : filled + cancelled + remaining ≡ quantity

pub order_response-Shown :
    (o : Order)
    → o.filled_quantity + o.cancelled_quantity + o.remaining_quantity ≡ o.quantity
    → o.quantity < pow10 24
    → Shown (order_response o)
unfolding order_response
order_response-Shown o conserved small = record {
  quantity = o.quantity;
  filled = o.filled_quantity;
  cancelled = o.cancelled_quantity;
  remaining = o.remaining_quantity;
  quantity_text = read-serialize_amount o.quantity small;
  filled_text = read-serialize_amount o.filled_quantity (omega arith);
  cancelled_text = read-serialize_amount o.cancelled_quantity (omega arith);
  remaining_text = read-serialize_amount o.remaining_quantity (omega arith);
  adds_up = conserved;
}
