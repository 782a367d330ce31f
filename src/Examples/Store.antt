-- ===== src/Examples/Store.antt =====
-- The theorems on the keys of the store and on its migration, at the market day.
use order_management_system.Prelude.{
  ◌≡◌, refl, arith, true, str_eq_iff, String, List, [], ◌∷◌, Option, some, str_eq, if◌then◌else◌,
}
use order_management_system.Domain.Enums.{buy, gtc, limit}
use order_management_system.Examples.{surroundings, part_filled, part_filled-Reach}
use order_management_system.Examples.Requests.{unchanged, order_input}
use order_management_system.Models.{OrderCreate}
use order_management_system.Services.OrderService.{initial_order}
use order_management_system.Schemas.{validate_order, order_fields_valid}
use order_management_system.Schemas.Responses.{Shown}
use order_management_system.System.Keys.{
  HasUniqueKeys, HasReferences, reachable_keys, reachable_references,
}
use order_management_system.Migration.{
  Operation, create_table, create_index, drop_index, drop_table,
}
use order_management_system.Migration.Tables.{orders_table}
use order_management_system.Migration.Rows.{fits}
use order_management_system.Migration.Cells.{order_row}
use order_management_system.Migration.Fits.{valid_order_fits}
use order_management_system.Migration.Reverse.{
  upgrade, downgrade, run_all, Restores, downgrade-upgrade,
}

reachable_keys_example : HasUniqueKeys part_filled
reachable_keys_example = reachable_keys part_filled-Reach

reachable_references_example : HasReferences part_filled
reachable_references_example = reachable_references part_filled-Reach

abbrev valid_payload : OrderCreate
valid_payload = record {
  client_order_id = "ORDER-1001";
  idempotency_key = "client-1001-order-1001";
  account_id = 1;
  symbol = "RELIANCE";
  side = buy;
  order_type = limit;
  time_in_force = gtc;
  quantity = 100;
  price = 100;
}

valid_order_fits_example :
    fits orders_table (order_row (initial_order (surroundings 7) valid_payload)) ≡ true
unfolding validate_order order_fields_valid
valid_order_fits_example =
    valid_order_fits unchanged unchanged order_input valid_payload (surroundings 7) refl

-- A database that knows only the names of its tables and indexes.
abbrev Names : Type 0
Names = List String

abbrev drop_name : String → Names → Names
drop_name name [] = []
drop_name name (n ∷ ns) = let rest = drop_name name ns in if str_eq name n then ns else n ∷ rest

abbrev change : Operation → Names → Option Names
change (create_table t) names = some (t.name ∷ names)
change (create_index name table columns) names = some (name ∷ names)
change (drop_index name table) names = some (drop_name name names)
change (drop_table name) names = some (drop_name name names)

drop_first : (name : String) (names : Names) → drop_name name (name ∷ names) ≡ names
drop_first name names = ground (arith, str_eq_iff name name)

change-Restores : Restores change
change-Restores = (
  λ t s s' h. ground (arith, drop_first t.name s),
  λ name table columns s s' h. ground (arith, drop_first name s),
)

abbrev upgraded : Names
upgraded =
    "ix_processed_broker_events_order_id" ∷ "processed_broker_events"
    ∷ "ix_order_events_order_created" ∷ "order_events" ∷ "ix_fills_order_id" ∷ "fills"
    ∷ "ix_positions_symbol" ∷ "positions" ∷ "ix_orders_symbol" ∷ "ix_orders_expires_at"
    ∷ "ix_orders_account_status" ∷ "orders" ∷ "market_prices" ∷ "ix_accounts_user_id" ∷ "accounts"
    ∷ []

downgrade-upgrade_example : run_all change downgrade upgraded ≡ some []
unfolding upgrade
downgrade-upgrade_example = downgrade-upgrade change change-Restores [] upgraded refl
