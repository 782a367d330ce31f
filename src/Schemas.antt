-- ===== src/Schemas.antt =====
-- app/schemas: the requests as they are read, and the validators. Reading JSON into texts, numbers and
-- enum members is pydantic's; a request that fails a validator is refused before any service runs.
pub mod Amount
pub mod Responses
use Prim.Native.String.{count}
use order_management_system.Prelude.{
  ℕ, String, Bool, true, false, Option, none, some, ◌&&◌, not, ltb, leb, str_eq, if◌then◌else◌,
}
use order_management_system.Prelude.Int.{ℤ, pos, pos_part, ltb_ℤ}
use order_management_system.Domain.Enums.{
  OrderSide, OrderType, TimeInForce, BrokerEventType, full_fill, partial_fill,
}
use order_management_system.Models.{OrderCreate, BrokerExecutionEvent}
use order_management_system.Services.AccountService.{AccountCreate}

-- `Field(min_length=…, max_length=…)`
abbrev pub has_length : ℕ → ℕ → String → Bool
has_length least most s = leb least (count s) && leb (count s) most

pub record OrderInput : Type 0 where
  pub client_order_id : String
  pub idempotency_key : String
  pub account_id : ℕ
  pub symbol : String
  pub side : OrderSide
  pub order_type : OrderType
  pub time_in_force : TimeInForce
  pub quantity : ℤ
  pub price : ℤ

-- The constraints on the fields. The symbol's length is checked as it is read.
unfoldable pub order_fields_valid : OrderInput → Bool
order_fields_valid i =
    has_length 1 100 i.client_order_id
    && has_length 8 100 i.idempotency_key
    && has_length 1 32 i.symbol
    && ltb_ℤ (pos 0) i.quantity
    && ltb_ℤ (pos 0) i.price

-- `OrderCreate`; `strip` and `upper` are the methods of `str`.
unfoldable pub validate_order :
    (String → String) → (String → String) → OrderInput → Option OrderCreate
validate_order strip upper i =
    if order_fields_valid i
    then some (record {
      client_order_id = i.client_order_id;
      idempotency_key = i.idempotency_key;
      account_id = i.account_id;
      symbol = upper (strip i.symbol);
      side = i.side;
      order_type = i.order_type;
      time_in_force = i.time_in_force;
      quantity = pos_part i.quantity;
      price = pos_part i.price;
    })
    else none

pub record AccountInput : Type 0 where
  pub user_id : String
  pub initial_cash_balance : ℤ
  pub currency : String

-- `AccountCreate`
unfoldable pub validate_account : (String → String) → AccountInput → Option AccountCreate
validate_account upper i =
    if has_length 1 100 i.user_id
      && ltb_ℤ (pos 0) i.initial_cash_balance
      && has_length 3 3 i.currency
    then some (record {
      user_id = i.user_id;
      initial_cash_balance = pos_part i.initial_cash_balance;
      currency = upper i.currency;
    })
    else none

abbrev pub is_fill : BrokerEventType → Bool
is_fill full_fill = true
is_fill partial_fill = true
is_fill _ = false

abbrev positive_price : Option ℕ → Bool
positive_price none = false
positive_price (some p) = ltb 0 p

abbrev some_text : Option String → Bool
some_text none = false
some_text (some s) = not (str_eq s "")

-- `validate_fill_payload`
unfoldable pub fill_payload_valid : BrokerExecutionEvent → Bool
fill_payload_valid event =
    if is_fill event.event_type
    then ltb 0 event.filled_quantity
      && positive_price event.fill_price
      && some_text event.execution_id
    else true
