-- ===== src/Migration/Fits.antt =====
-- The columns of the migration against the rows of app/models and the requests of app/schemas.
use Prim.Native.String.{count}
use order_management_system.Prelude.{ℕ, String, true, Option, none, some, ◌≡◌, refl, arith, leb}
use order_management_system.Domain.Enums.{
  OrderSide, buy, sell, OrderType, market, limit, TimeInForce, day, gtc, ioc,
}
use order_management_system.Models.{OrderCreate}
use order_management_system.Schemas.{
  OrderInput, AccountInput, order_fields_valid, validate_order, validate_account,
}
use order_management_system.Services.AccountService.{AccountCreate, new_account}
use order_management_system.Services.OrderService.{Surroundings, initial_order}
use order_management_system.Migration.{optional, timestamp}
use order_management_system.Migration.Tables.{accounts_table, orders_table}
use order_management_system.Migration.Rows.{fits, fits_column}
use order_management_system.Migration.Cells.{
  optional_number, account_row, order_row, side_value, type_value, tif_value,
}

side_fits : (s : OrderSide) → leb (count (side_value s)) 10 ≡ true
side_fits buy = refl
side_fits sell = refl

type_fits : (t : OrderType) → leb (count (type_value t)) 10 ≡ true
type_fits market = refl
type_fits limit = refl

tif_fits : (t : TimeInForce) → leb (count (tif_value t)) 10 ≡ true
tif_fits day = refl
tif_fits gtc = refl
tif_fits ioc = refl

expiry_fits :
    (expires_at : Option ℕ)
    → fits_column (optional "expires_at" timestamp) (optional_number expires_at) ≡ true
expiry_fits none = refl
expiry_fits (some t) = refl

-- A new order of a valid request is as its columns want it, nothing missing and no text too long, exactly
-- where its symbol, stripped and in upper case, has at most thirty-two characters.
pub valid_order_fits :
    (strip upper : String → String) (i : OrderInput) (payload : OrderCreate) (env : Surroundings)
    → validate_order strip upper i ≡ some payload
    → fits orders_table (order_row (initial_order env payload)) ≡ leb (count payload.symbol) 32
unfolding validate_order order_fields_valid initial_order
valid_order_fits strip upper i payload env h = ground (
  arith,
  side_fits payload.side,
  type_fits payload.order_type,
  tif_fits payload.time_in_force,
  expiry_fits (initial_order env payload).expires_at,
)

-- A new account of a valid request is as its columns want it exactly where its currency, in upper case,
-- has at most three characters.
pub valid_account_fits :
    (upper : String → String) (i : AccountInput) (payload : AccountCreate) (id : ℕ)
    → validate_account upper i ≡ some payload
    → fits accounts_table (account_row (new_account id payload)) ≡ leb (count payload.currency) 3
unfolding validate_account
valid_account_fits upper i payload id h = ground arith
