-- ===== src/Services/OrderService/Placement.antt =====
-- What the placement of a new order writes.
use order_management_system.Prelude.{
  ℕ, ◌+◌, ◌*◌, ◌<◌, ◌≡◌, refl, Bool, true, none, some, [], ◌∷◌, ◌++◌, arith, nat_eq, not,
  if◌then◌else◌, ◌&&◌,
}
use order_management_system.Prelude.Table.{find, replace, replace-append}
use order_management_system.Prelude.Int.{ltb_ℤ, pos}
use order_management_system.Domain.Enums.{OrderStatus, routed, validated, is_buy}
use order_management_system.Domain.Errors.{ok}
use order_management_system.Domain.OrderRules.{required_buying_power}
use order_management_system.Models.{Db, Order, Account, OrderCreate, available_cash, order_columns}
use order_management_system.Services.Lifecycle.{transition}
use order_management_system.Domain.StateMachine.{ensure_transition_allowed}
use order_management_system.Keys.{IsFreshRow}
use order_management_system.Accounting.{order_id, account_id}
use order_management_system.Soundness.{IsSound}
use order_management_system.Services.OrderService.{
  Surroundings, initial_order, reserve, reject_order, route_order, place_order,
}

-- The new row, and the account when the cash has been set aside.
abbrev pub rejected_row : Surroundings → OrderCreate → Order
rejected_row env payload = record (initial_order env payload) {
  rejection_reason = some "Insufficient buying power";
  status = OrderStatus.rejected;
  version = 2;
}

abbrev pub routed_row : Surroundings → OrderCreate → Order
routed_row env payload = record (initial_order env payload) { status = routed; version = 3 }

abbrev pub reserved_account : OrderCreate → Account → Account
reserved_account payload a = record a {
  reserved_cash = a.reserved_cash + payload.quantity * payload.price;
  version = a.version + 1;
}

abbrev pub required : OrderCreate → ℕ
required payload = required_buying_power payload.side payload.quantity payload.price

module _ (env : Surroundings) (payload : OrderCreate) (a : Account) (r : Order)
    (should_route : Bool) (db db' : Db)
    (h : place_order env payload a db ≡ ok ((r, should_route), db')) where
  pub place_order-fresh :
      (find order_id env.order_id db.orders ≡ none) × (0 < payload.price) × (0 < payload.quantity)
  unfolding place_order initial_order
  place_order-fresh = ground arith

  pub place_order-row : r ≡ (
      if ltb_ℤ (available_cash a) (pos (required payload))
      then rejected_row env payload
      else routed_row env payload)
  unfolding place_order reject_order route_order transition ensure_transition_allowed initial_order
      reserve
  place_order-row = ground arith

  pub place_order-accounts : db'.accounts ≡ (
      if is_buy payload.side && not (ltb_ℤ (available_cash a) (pos (required payload)))
      then replace account_id (reserved_account payload a) db.accounts
      else db.accounts)
  unfolding place_order reject_order route_order transition ensure_transition_allowed initial_order
      reserve
  place_order-accounts = ground arith

  abbrev validated_row : Order
  validated_row = record (initial_order env payload) { status = validated; version = 2 }

  pub place_order-orders : db'.orders ≡ db.orders ++ r ∷ []
  unfolding place_order reject_order route_order transition ensure_transition_allowed initial_order
      reserve
  place_order-orders = ground (
    arith,
    replace-append order_id (rejected_row env payload) (initial_order env payload) db.orders
        place_order-fresh.0 refl,
    replace-append order_id validated_row (initial_order env payload) db.orders place_order-fresh.0
        refl,
    replace-append order_id (routed_row env payload) validated_row db.orders place_order-fresh.0
        refl,
  )

  -- Nothing stood under the keys of a placed order.
  pub place_order-IsFreshRow : IsFreshRow r db.orders
  unfolding initial_order place_order
  place_order-IsFreshRow = record {
    fresh_id = ground (arith, place_order-row);
    fresh_client = ground (arith, place_order-row);
    fresh_key = ground (arith, place_order-row);
  }

  -- The last write of the row has checked its columns.
  pub place_order-columns : order_columns r ≡ true
  unfolding place_order reject_order route_order transition ensure_transition_allowed initial_order
      reserve
  place_order-columns = ground arith

  -- A placed order is sound, whether it was routed or rejected.
  pub place_order-IsSound : IsSound r
  unfolding initial_order
  place_order-IsSound = ground (arith, place_order-row, place_order-fresh, place_order-columns)
