-- ===== src/Migration/Tables.antt =====
-- The tables of alembic/versions/20260723_0001_initial_schema.py, column for column.
use order_management_system.Prelude.{[], ◌∷◌, none, some}
use order_management_system.Migration.{
  varchar, money, integer, uuid_column, timestamp, jsonb, required, optional, Table,
  check_constraint, primary_key, unique, foreign_key, column, literal, plus, at_least, at_most,
  above, equal, is_null, either, one_of,
}

abbrev pub accounts_table : Table
accounts_table = record {
  name = "accounts";
  columns =
      required "user_id" (varchar 100)
      ∷ required "currency" (varchar 3)
      ∷ required "cash_balance" money
      ∷ required "reserved_cash" money
      ∷ required "version" integer
      ∷ required "id" uuid_column
      ∷ required "created_at" timestamp
      ∷ required "updated_at" timestamp
      ∷ [];
  constraints =
      check_constraint "ck_accounts_cash_nonnegative" (at_least (column "cash_balance") (literal 0))
      ∷ check_constraint "ck_accounts_reserved_nonnegative"
          (at_least (column "reserved_cash") (literal 0))
      ∷ check_constraint "ck_accounts_reserved_not_above_cash"
          (at_most (column "reserved_cash") (column "cash_balance"))
      ∷ primary_key "id"
      ∷ unique none ("user_id" ∷ [])
      ∷ [];
}

abbrev pub market_prices_table : Table
market_prices_table = record {
  name = "market_prices";
  columns =
      required "symbol" (varchar 32)
      ∷ required "price" money
      ∷ required "observed_at" timestamp
      ∷ required "created_at" timestamp
      ∷ required "updated_at" timestamp
      ∷ [];
  constraints =
      check_constraint "ck_market_prices_price_positive" (above (column "price") (literal 0))
      ∷ primary_key "symbol"
      ∷ [];
}

abbrev pub orders_table : Table
orders_table = record {
  name = "orders";
  columns =
      required "client_order_id" (varchar 100)
      ∷ required "idempotency_key" (varchar 100)
      ∷ required "account_id" uuid_column
      ∷ required "symbol" (varchar 32)
      ∷ required "side" (varchar 10)
      ∷ required "order_type" (varchar 10)
      ∷ required "time_in_force" (varchar 10)
      ∷ required "quantity" money
      ∷ required "price" money
      ∷ required "filled_quantity" money
      ∷ required "cancelled_quantity" money
      ∷ required "remaining_quantity" money
      ∷ optional "average_fill_price" money
      ∷ required "status" (varchar 30)
      ∷ optional "rejection_reason" (varchar 500)
      ∷ optional "broker_order_id" (varchar 100)
      ∷ optional "expires_at" timestamp
      ∷ required "version" integer
      ∷ required "id" uuid_column
      ∷ required "created_at" timestamp
      ∷ required "updated_at" timestamp
      ∷ [];
  constraints =
      check_constraint "ck_orders_quantity_positive" (above (column "quantity") (literal 0))
      ∷ check_constraint "ck_orders_price_positive" (above (column "price") (literal 0))
      ∷ check_constraint "ck_orders_filled_nonnegative"
          (at_least (column "filled_quantity") (literal 0))
      ∷ check_constraint "ck_orders_cancelled_nonnegative"
          (at_least (column "cancelled_quantity") (literal 0))
      ∷ check_constraint "ck_orders_remaining_nonnegative"
          (at_least (column "remaining_quantity") (literal 0))
      ∷ check_constraint "ck_orders_quantity_conservation" (
          equal
            (plus (plus (column "filled_quantity") (column "cancelled_quantity"))
              (column "remaining_quantity"))
            (column "quantity"))
      ∷ check_constraint "ck_orders_side" (one_of "side" ("BUY" ∷ "SELL" ∷ []))
      ∷ check_constraint "ck_orders_type" (one_of "order_type" ("MARKET" ∷ "LIMIT" ∷ []))
      ∷ check_constraint "ck_orders_tif" (one_of "time_in_force" ("DAY" ∷ "GTC" ∷ "IOC" ∷ []))
      ∷ check_constraint "ck_orders_status" (
          one_of "status" (
            "NEW" ∷ "VALIDATED" ∷ "ROUTED" ∷ "PARTIALLY_FILLED" ∷ "FILLED" ∷ "REJECTED"
            ∷ "CANCEL_PENDING" ∷ "CANCELLED" ∷ []))
      ∷ foreign_key "account_id" "accounts" "id"
      ∷ primary_key "id"
      ∷ unique (some "uq_orders_account_client_order") ("account_id" ∷ "client_order_id" ∷ [])
      ∷ unique (some "uq_orders_account_idempotency_key") ("account_id" ∷ "idempotency_key" ∷ [])
      ∷ [];
}

abbrev pub positions_table : Table
positions_table = record {
  name = "positions";
  columns =
      required "account_id" uuid_column
      ∷ required "symbol" (varchar 32)
      ∷ required "net_quantity" money
      ∷ required "average_entry_price" money
      ∷ required "realized_pnl" money
      ∷ required "unrealized_pnl" money
      ∷ optional "last_mark_price" money
      ∷ required "id" uuid_column
      ∷ required "created_at" timestamp
      ∷ required "updated_at" timestamp
      ∷ [];
  constraints =
      check_constraint "ck_positions_average_price_nonnegative"
        (at_least (column "average_entry_price") (literal 0))
      ∷ check_constraint "ck_positions_mark_price_positive"
          (either (is_null "last_mark_price") (above (column "last_mark_price") (literal 0)))
      ∷ foreign_key "account_id" "accounts" "id"
      ∷ primary_key "id"
      ∷ unique (some "uq_positions_account_symbol") ("account_id" ∷ "symbol" ∷ [])
      ∷ [];
}

abbrev pub fills_table : Table
fills_table = record {
  name = "fills";
  columns =
      required "order_id" uuid_column
      ∷ required "broker_event_id" uuid_column
      ∷ required "execution_id" (varchar 100)
      ∷ required "quantity" money
      ∷ required "price" money
      ∷ required "executed_at" timestamp
      ∷ required "id" uuid_column
      ∷ required "created_at" timestamp
      ∷ required "updated_at" timestamp
      ∷ [];
  constraints =
      check_constraint "ck_fills_quantity_positive" (above (column "quantity") (literal 0))
      ∷ check_constraint "ck_fills_price_positive" (above (column "price") (literal 0))
      ∷ foreign_key "order_id" "orders" "id"
      ∷ primary_key "id"
      ∷ unique none ("broker_event_id" ∷ [])
      ∷ unique none ("execution_id" ∷ [])
      ∷ [];
}

abbrev pub order_events_table : Table
order_events_table = record {
  name = "order_events";
  columns =
      required "order_id" uuid_column
      ∷ required "event_type" (varchar 50)
      ∷ optional "previous_status" (varchar 30)
      ∷ optional "new_status" (varchar 30)
      ∷ required "event_data" jsonb
      ∷ required "id" uuid_column
      ∷ required "created_at" timestamp
      ∷ required "updated_at" timestamp
      ∷ [];
  constraints = foreign_key "order_id" "orders" "id" ∷ primary_key "id" ∷ [];
}

abbrev pub processed_broker_events_table : Table
processed_broker_events_table = record {
  name = "processed_broker_events";
  columns =
      required "broker_event_id" uuid_column
      ∷ required "order_id" uuid_column
      ∷ required "event_type" (varchar 30)
      ∷ required "broker_timestamp" timestamp
      ∷ required "outcome" (varchar 20)
      ∷ required "details" jsonb
      ∷ required "id" uuid_column
      ∷ required "created_at" timestamp
      ∷ required "updated_at" timestamp
      ∷ [];
  constraints =
      check_constraint "ck_processed_broker_events_type"
        (one_of "event_type" ("FULL_FILL" ∷ "PARTIAL_FILL" ∷ "REJECTED" ∷ "CANCELLED" ∷ []))
      ∷ check_constraint "ck_processed_broker_events_outcome"
          (one_of "outcome" ("APPLIED" ∷ "IGNORED" ∷ []))
      ∷ foreign_key "order_id" "orders" "id"
      ∷ primary_key "id"
      ∷ unique none ("broker_event_id" ∷ [])
      ∷ [];
}
