-- ===== src/Services/OrderService/Admission.antt =====
-- How a new request for an order is answered.
use order_management_system.Prelude.{
  ◌≡◌, ◌<◌, ap, ◌==◌, not, Bool, true, none, some, inl, inr, arith, nat_eq, if◌then◌else◌,
}
use order_management_system.Prelude.Int.{ltb_ℤ, pos}
use order_management_system.Prelude.Table.{find, find_where-append}
use order_management_system.Domain.Errors.{Result-cases, ok}
use order_management_system.Domain.StateMachine.{ensure_transition_allowed}
use order_management_system.Models.{
  Db, Order, Account, OrderCreate, available_cash, order_columns, account_columns, optional_fits,
  text_fits,
}
use order_management_system.Persistence.Session.{begin}
use order_management_system.Persistence.Orders.{by_idempotency_key, by_client_order_id}
use order_management_system.Services.Lifecycle.{transition}
use order_management_system.Accounting.{order_id, account_id}
use order_management_system.Services.OrderService.Placement.{
  place_order-orders, rejected_row, routed_row, required,
}
use order_management_system.Services.OrderService.{
  Surroundings, initial_order, reserve, reject_order, route_order, place_order, creation_block,
  create_order, submit,
}

-- A request that can be placed: nothing is stored under its names, and its numbers are positive.
pub record IsFresh (env : Surroundings) (payload : OrderCreate) (db : Db) : Type 0 where
  pub fresh_id : find order_id env.order_id db.orders ≡ none
  pub fresh_key : by_idempotency_key payload.account_id payload.idempotency_key db ≡ none
  pub fresh_client : by_client_order_id payload.account_id payload.client_order_id db ≡ none
  pub some_quantity : 0 < payload.quantity
  pub some_price : 0 < payload.price
  pub fits : order_columns (initial_order env payload) ≡ true

module _ (env : Surroundings) (payload : OrderCreate) (db : Db) (a : Account)
    (ha : find account_id payload.account_id db.accounts ≡ some a)
    (columns : account_columns a ≡ true) (fresh : IsFresh env payload db) where
  abbrev poor : Bool
  poor = ltb_ℤ (available_cash a) (pos (required payload))

  abbrev admitted_row : Order
  admitted_row = if poor then rejected_row env payload else routed_row env payload

  place_order-ok : (begin (place_order env payload a) db).0 ≡ ok (admitted_row, not poor)
  unfolding place_order reject_order route_order transition ensure_transition_allowed initial_order
      reserve optional_fits text_fits
  place_order-ok = ground (
    arith, fresh.fresh_id, fresh.fresh_key, fresh.fresh_client, fresh.some_quantity,
    fresh.some_price, fresh.fits, columns,
  )

  creation_block-ok : (begin (creation_block env payload) db).0 ≡ ok (admitted_row, not poor)
  unfolding creation_block
  creation_block-ok = ground (arith, place_order-ok, fresh.fresh_key, fresh.fresh_client)

  place_order-stored :
      (o : Order) (should_route : Bool) (db' : Db)
      → creation_block env payload db ≡ ok ((o, should_route), db')
      → o ≡ admitted_row
      → find order_id env.order_id db'.orders ≡ some admitted_row
  unfolding creation_block initial_order
  place_order-stored o should_route db' run same =
      let placed : place_order env payload a db ≡ ok ((o, should_route), db') =
        ground (arith, fresh.fresh_key, fresh.fresh_client) in
      ground (
        arith,
        place_order-orders env payload a o should_route db db' placed,
        fresh.fresh_id,
        find_where-append (λ (x : Order). x.id == env.order_id) db.orders o,
      )

  -- A new request of a known account that the broker accepts, with positive numbers and names that
  -- are not taken, whose texts and numbers fit the columns as those of the account do, is always answered by an order, which is then stored: routed if the available
  -- cash of the account covers what the request needs, and rejected if it does not.
  pub create_order_answer :
      ((create_order env payload none db).0 ≡ ok admitted_row)
      × (find order_id env.order_id (create_order env payload none db).1.orders ≡ some admitted_row)
  unfolding create_order submit
  create_order_answer = elim (Result-cases (creation_block env payload db)) [
    | inl (e, failed) ↦ absurd (ground (arith, creation_block-ok))
    | inr (((o, routed_now), db'), run) ↦
        let same : o ≡ admitted_row = ground (arith, creation_block-ok) in
        rw (run, begin) (ap ok same, place_order-stored o routed_now db' run same)
  ]
