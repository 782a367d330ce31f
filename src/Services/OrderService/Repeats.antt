-- ===== src/Services/OrderService/Repeats.antt =====
-- A request for an order that is sent again.
use order_management_system.Prelude.{
  ◌≡◌, refl, String, Bool, true, false, Option, some, none, inl, inr, arith, Option-cases, nat_eq,
  ◌==◌, ◌&&◌, [], ◌∷◌, ◌++◌, ◌⊎◌, str_eq, str_eq_iff,
}
use order_management_system.Prelude.Table.{find, find_where_holds}
use order_management_system.Domain.Errors.{ok}
use order_management_system.Models.{Db, Order, Account, OrderCreate}
use order_management_system.Persistence.Session.{begin}
use order_management_system.Persistence.Orders.{by_idempotency_key}
use order_management_system.Keys.{IsFreshRow}
use order_management_system.Accounting.{account_id}
use order_management_system.Services.OrderService.Placement.{
  place_order-row, place_order-orders, place_order-IsFreshRow,
}
use order_management_system.Services.OrderService.{
  Surroundings, initial_order, order_matches_request, place_order, creation_block, create_order,
  submit,
}

-- A row with the terms of the request.
matches_own :
    (env : Surroundings) (payload : OrderCreate) (a : Account) (r : Order) (should_route : Bool)
    (db db' : Db)
    → place_order env payload a db ≡ ok ((r, should_route), db')
    → (order_matches_request r payload ≡ true)
      × ((r.account_id == payload.account_id && str_eq r.idempotency_key payload.idempotency_key)
          ≡ true)
unfolding order_matches_request initial_order
matches_own env payload a r should_route db db' h = ground (
  arith,
  place_order-row env payload a r should_route db db' h,
  str_eq_iff payload.client_order_id payload.client_order_id,
  str_eq_iff payload.symbol payload.symbol,
  str_eq_iff payload.idempotency_key payload.idempotency_key,
)

-- What a request finds when its order is there.
finds_own :
    (env : Surroundings) (payload : OrderCreate) (a : Account) (r : Order) (db : Db)
    → find account_id payload.account_id db.accounts ≡ some a
    → by_idempotency_key payload.account_id payload.idempotency_key db ≡ some r
    → order_matches_request r payload ≡ true
    → creation_block env payload db ≡ ok ((r, false), db)
unfolding creation_block
finds_own env payload a r db ha hr own = ground arith

submit_unrouted :
    (failure : Option String) (r : Order) (db : Db)
    → submit failure (ok (r, false), db) ≡ (ok r, db)
unfolding submit
submit_unrouted none r db = refl
submit_unrouted (some reason) r db = refl

-- A request whose order is there is answered with it; nothing changes, and the broker is not called.
pub create_order-found :
    (env : Surroundings) (payload : OrderCreate) (failure : Option String) (a : Account) (r : Order)
    (db : Db)
    → find account_id payload.account_id db.accounts ≡ some a
    → by_idempotency_key payload.account_id payload.idempotency_key db ≡ some r
    → order_matches_request r payload ≡ true
    → create_order env payload failure db ≡ (ok r, db)
unfolding create_order
create_order-found env payload failure a r db ha hr own =
    rw (finds_own env payload a r db ha hr own, begin) (submit_unrouted failure r db)

-- The order that a request is answered with has the terms of the request and stands under its keys; it
-- was there, or is the last row.
pub creation_block-own :
    (env : Surroundings) (payload : OrderCreate) (r : Order) (should_route : Bool) (db db' : Db)
    → creation_block env payload db ≡ ok ((r, should_route), db')
    → (order_matches_request r payload ≡ true)
      × ((r.account_id == payload.account_id && str_eq r.idempotency_key payload.idempotency_key)
          ≡ true)
      × (((db' ≡ db) × (by_idempotency_key payload.account_id payload.idempotency_key db ≡ some r))
          ⊎ ((db'.orders ≡ db.orders ++ r ∷ []) × IsFreshRow r db.orders))
creation_block-own env payload r should_route db db' h =
    elim (Option-cases (find account_id payload.account_id db.accounts)) [
      | inl unknown ↦ absurd (unfold creation_block in ground arith)
      | inr (a, ha) ↦
          elim (Option-cases (by_idempotency_key payload.account_id payload.idempotency_key db)) [
            | inr (earlier, seen) ↦
                let (same_db, same_row, own) : (db' ≡ db)
                    × (r ≡ earlier)
                    × (order_matches_request r payload ≡ true) =
                  unfold creation_block in ground arith in
                let found : by_idempotency_key payload.account_id payload.idempotency_key db
                    ≡ some r =
                  ground arith in
                (own, find_where_holds _ db.orders r found, inl (same_db, found))
            | inl unseen ↦
                let placed : place_order env payload a db ≡ ok ((r, should_route), db') =
                  unfold creation_block in ground arith in
                let (own, keyed) = matches_own env payload a r should_route db db' placed in
                (
                  own,
                  keyed,
                  inr (
                    place_order-orders env payload a r should_route db db' placed,
                    place_order-IsFreshRow env payload a r should_route db db' placed,
                  ),
                )
          ]
    ]
