-- ===== src/Migration/Cells.antt =====
-- The rows of accounts and orders under the names of their columns.
use order_management_system.Prelude.{ℕ, String, Option, none, some, [], ◌∷◌}
use order_management_system.Prelude.Int.{pos}
use order_management_system.Domain.Enums.{
  OrderSide, buy, sell, OrderType, market, limit, TimeInForce, day, gtc, ioc, status_value,
}
use order_management_system.Models.{Account, Order}
use order_management_system.Migration.Rows.{Value, null, number, words, Row}

-- The texts of the members.
abbrev pub side_value : OrderSide → String
side_value buy = "BUY"
side_value sell = "SELL"

abbrev pub type_value : OrderType → String
type_value market = "MARKET"
type_value limit = "LIMIT"

abbrev pub tif_value : TimeInForce → String
tif_value day = "DAY"
tif_value gtc = "GTC"
tif_value ioc = "IOC"

abbrev counted : ℕ → Value
counted n = number (pos n)

abbrev pub optional_number : Option ℕ → Value
optional_number none = null
optional_number (some n) = counted n

abbrev optional_words : Option String → Value
optional_words none = null
optional_words (some s) = words s

abbrev pub account_row : Account → Row
account_row a =
    ("user_id", words a.user_id)
    ∷ ("currency", words a.currency)
    ∷ ("cash_balance", counted a.cash_balance)
    ∷ ("reserved_cash", counted a.reserved_cash)
    ∷ ("version", counted a.version)
    ∷ ("id", counted a.id)
    ∷ []

abbrev pub order_row : Order → Row
order_row o =
    ("client_order_id", words o.client_order_id)
    ∷ ("idempotency_key", words o.idempotency_key)
    ∷ ("account_id", counted o.account_id)
    ∷ ("symbol", words o.symbol)
    ∷ ("side", words (side_value o.side))
    ∷ ("order_type", words (type_value o.order_type))
    ∷ ("time_in_force", words (tif_value o.time_in_force))
    ∷ ("quantity", counted o.quantity)
    ∷ ("price", counted o.price)
    ∷ ("filled_quantity", counted o.filled_quantity)
    ∷ ("cancelled_quantity", counted o.cancelled_quantity)
    ∷ ("remaining_quantity", counted o.remaining_quantity)
    ∷ ("average_fill_price", optional_number o.average_fill_price)
    ∷ ("status", words (status_value o.status))
    ∷ ("rejection_reason", optional_words o.rejection_reason)
    ∷ ("expires_at", optional_number o.expires_at)
    ∷ ("version", counted o.version)
    ∷ ("id", counted o.id)
    ∷ []
