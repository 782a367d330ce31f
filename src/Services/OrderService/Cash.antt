-- ===== src/Services/OrderService/Cash.antt =====
-- The creation of an order and a failure of its routing keep the reserves backed and the orders sound.
use Prim.Native.String.{◌++◌ as str_append}
use order_management_system.Prelude.{
  ℕ, ◌+◌, ◌*◌, ◌-◌, ◌≡◌, refl, String, Bool, true, false, Option, none, some, inl, inr, arith,
  Option-cases, Bool-cases, nat_eq, not, ◌&&◌, ◌⊎◌, ap, subst, sym,
}
use order_management_system.Prelude.Table.{find, find-key, key-find, Every-append}
use order_management_system.Prelude.Int.{ltb_ℤ, pos}
use order_management_system.Domain.Enums.{OrderStatus, routed, is_buy, status_eq}
use order_management_system.Domain.Errors.{Result, ok, err, Result-cases}
use order_management_system.Models.{Db, Order, Account, OrderCreate, available_cash, order_columns}
use order_management_system.Persistence.Session.{begin, begin_keeps}
use order_management_system.Persistence.Orders.{by_idempotency_key}
use order_management_system.Services.Lifecycle.{transition}
use order_management_system.Accounting.{
  order_id, account_id, held, Backed, Backed-same, Backed-place, IsBacked-append, IsBacked-order,
  Settles, Settles-Backed,
}
use order_management_system.Soundness.{
  IsSound, AllSound, Rewrites, rewritten, Effect-AllSound, one_order,
}
use order_management_system.Soundness.Evolution.{
  Evolves, Evolves-same, Evolves-append, Touches-Evolves,
}
use order_management_system.Services.OrderService.Placement.{
  reserved_account, required, place_order-row, place_order-accounts, place_order-orders,
  place_order-IsSound, place_order-IsFreshRow,
}
use order_management_system.Services.OrderService.{
  Surroundings, initial_order, place_order, creation_block, release_routing, fail_routing,
  routing_failure_block, mark_routing_failure, create_order, submit,
}

module _ (env : Surroundings) (payload : OrderCreate) (a : Account) (r : Order)
    (should_route : Bool) (db db' : Db)
    (found : find account_id payload.account_id db.accounts ≡ some a)
    (h : place_order env payload a db ≡ ok ((r, should_route), db')) where
  place_order-Backed : Backed db → Backed db'
  unfolding held initial_order
  place_order-Backed b =
      let owner = key-find account_id payload.account_id db.accounts a found in
      let row = place_order-row env payload a r should_route db db' h in
      let rows = place_order-orders env payload a r should_route db db' h in
      let fresh = place_order-IsFreshRow env payload a r should_route db db' h in
      let own : r.account_id ≡ payload.account_id = ground arith in
      let accounts = place_order-accounts env payload a r should_route db db' h in
      elim (Bool-cases
        (is_buy payload.side && not (ltb_ℤ (available_cash a) (pos (required payload))))) [
          | inl reserving ↦
              Backed-same
                (Backed-place r a (reserved_account payload a) b
                  (subst (λ k. find account_id k db.accounts ≡ some a) (sym owner) found)
                  (ground arith) refl fresh (ground arith) (ground arith))
                (ground arith) rows
          | inr free ↦
              Backed-same (IsBacked-append b r a (rw own found) fresh (ground arith)) (ground arith)
                rows
        ]

-- The first block either finds the order of an earlier request, or places a new one.
pub creation_block-cases :
    (env : Surroundings) (payload : OrderCreate) (r : Order) (should_route : Bool) (db db' : Db)
    → creation_block env payload db ≡ ok ((r, should_route), db')
    → (db' ≡ db)
      ⊎ ((a : Account) × (find account_id payload.account_id db.accounts ≡ some a)
          × (place_order env payload a db ≡ ok ((r, should_route), db')))
unfolding creation_block
creation_block-cases env payload r should_route db db' h =
    elim (Option-cases (find account_id payload.account_id db.accounts)) [
      | inl unknown ↦ absurd (ground arith)
      | inr (a, found) ↦
          elim (Option-cases (by_idempotency_key payload.account_id payload.idempotency_key db)) [
            | inr (earlier, seen) ↦ inl (ground arith)
            | inl unseen ↦ inr (a, found, ground arith)
          ]
    ]

module _ (env : Surroundings) (payload : OrderCreate) (db : Db) where
  pub creation-Backed : Backed db → Backed (begin (creation_block env payload) db).1
  creation-Backed b =
      begin_keeps Backed (creation_block env payload) db b λ (r, should_route) db' run.
        elim (creation_block-cases env payload r should_route db db' run) [
          | inl same ↦
              Backed-same b (ap (λ (d : Db). d.accounts) same) (ap (λ (d : Db). d.orders) same)
          | inr (a, found, placed) ↦
              place_order-Backed env payload a r should_route db db' found placed b
        ]

  pub creation-AllSound :
      AllSound db.orders → AllSound (begin (creation_block env payload) db).1.orders
  creation-AllSound all =
      begin_keeps (λ d. AllSound d.orders) (creation_block env payload) db all
        λ (r, should_route) db' run.
          elim (creation_block-cases env payload r should_route db db' run) [
            | inl same ↦ subst (λ (d : Db). AllSound d.orders) (sym same) all
            | inr (a, found, placed) ↦
                subst AllSound (sym (place_order-orders env payload a r should_route db db' placed))
                  (Every-append order_id IsSound r db.orders all
                    (place_order-IsSound env payload a r should_route db db' placed))
          ]

abbrev pub failed_row : Order → String → Order
failed_row o reason = record o {
  rejection_reason = some (str_append "Broker routing failed: " reason);
  status = OrderStatus.rejected;
  version = o.version + 1;
}

abbrev released_account : Order → Account → Account
released_account o a = record a {
  reserved_cash = a.reserved_cash - o.remaining_quantity * o.price;
  version = a.version + 1;
}

module _ (o : Order) (reason : String) (db db' : Db) (at_broker : status_eq o.status routed ≡ true)
    (h : fail_routing o reason db ≡ ok (tt, db')) where
  fail_routing-Rewrites : Rewrites o (failed_row o reason) db db'
  unfolding fail_routing release_routing transition
  fail_routing-Rewrites = record {
    terms = ground arith;
    progress = ground arith;
    orders = ground arith;
  }

  fail_routing-columns : order_columns (failed_row o reason) ≡ true
  unfolding fail_routing release_routing transition
  fail_routing-columns = ground arith

  fail_routing-IsSound : IsSound o → IsSound (failed_row o reason)
  fail_routing-IsSound s = ground (arith, fail_routing-columns)

  fail_routing-Settles : is_buy o.side ≡ true → Settles o (failed_row o reason) db db'
  unfolding fail_routing release_routing transition held
  fail_routing-Settles buying = elim (Option-cases (find account_id o.account_id db.accounts)) [
    | inl missing ↦ absurd (ground arith)
    | inr (a, found) ↦ record {
      before = a;
      after = released_account o a;
      found = found;
      same_account = refl;
      moved = ground arith;
      covered = ground arith;
      accounts = ground arith;
      orders = ground arith;
    }
  ]

  fail_routing-sell : is_buy o.side ≡ false → db'.accounts ≡ db.accounts
  unfolding fail_routing release_routing transition
  fail_routing-sell selling = ground arith

  fail_routing-Backed : find order_id o.id db.orders ≡ some o → Backed db → Backed db'
  unfolding held
  fail_routing-Backed ho b = elim (Bool-cases (is_buy o.side)) [
    | inl buying ↦ Settles-Backed o (failed_row o reason) (fail_routing-Settles buying) b ho refl
    | inr selling ↦
        Backed-same (IsBacked-order b o (failed_row o reason) ho refl (ground arith))
          (fail_routing-sell selling) fail_routing-Rewrites.orders
  ]

-- The second block finds a routed order and fails it, or does nothing.
pub routing_failure_block-cases :
    (id : ℕ) (reason : String) (db db' : Db)
    → routing_failure_block id reason db ≡ ok (tt, db')
    → (db' ≡ db)
      ⊎ ((o : Order) × (find order_id id db.orders ≡ some o)
          × (status_eq o.status routed ≡ true)
          × (fail_routing o reason db ≡ ok (tt, db')))
unfolding routing_failure_block
routing_failure_block-cases id reason db db' h = elim (Option-cases (find order_id id db.orders)) [
  | inl unknown ↦ inl (ground arith)
  | inr (o, ho) ↦ elim (Bool-cases (status_eq o.status routed)) [
    | inl at_broker ↦ inr (o, ho, at_broker, ground arith)
    | inr elsewhere ↦ inl (ground arith)
  ]
]

module _ (id : ℕ) (reason : String) (db : Db) where
  -- A failure of the routing keeps the reserves backed.
  pub mark_routing_failure-Backed : Backed db → Backed (mark_routing_failure id reason db).1
  unfolding mark_routing_failure
  mark_routing_failure-Backed b =
      begin_keeps Backed (routing_failure_block id reason) db b λ u db' run.
        elim (routing_failure_block-cases id reason db db' run) [
          | inl same ↦
              Backed-same b (ap (λ (d : Db). d.accounts) same) (ap (λ (d : Db). d.orders) same)
          | inr (o, ho, at_broker, failed) ↦
              fail_routing-Backed o reason db db' at_broker failed
                (find-key order_id id db.orders o ho) b
        ]

  -- A failure of the routing keeps every stored order sound.
  pub mark_routing_failure-AllSound :
      AllSound db.orders → AllSound (mark_routing_failure id reason db).1.orders
  unfolding mark_routing_failure
  mark_routing_failure-AllSound all =
      begin_keeps (λ d. AllSound d.orders) (routing_failure_block id reason) db all
        λ u db' run. elim (routing_failure_block-cases id reason db db' run) [
          | inl same ↦ subst (λ (d : Db). AllSound d.orders) (sym same) all
          | inr (o, ho, at_broker, failed) ↦
              Effect-AllSound o
                (rewritten (failed_row o reason)
                  (fail_routing-Rewrites o reason db db' at_broker failed)
                  (fail_routing-IsSound o reason db db' at_broker failed) (ground arith))
                (find-key order_id id db.orders o ho) all
        ]

  pub mark_routing_failure-Evolves : Evolves db (mark_routing_failure id reason db).1
  unfolding mark_routing_failure
  mark_routing_failure-Evolves =
      begin_keeps (Evolves db) (routing_failure_block id reason) db (Evolves-same db db refl)
        λ u db' run. elim (routing_failure_block-cases id reason db db' run) [
          | inl same ↦ Evolves-same db db' (ap (λ (d : Db). d.orders) same)
          | inr (o, ho, at_broker, failed) ↦ Touches-Evolves (
              one_order o (find-key order_id id db.orders o ho) (
                rewritten (failed_row o reason)
                  (fail_routing-Rewrites o reason db db' at_broker failed)
                  (fail_routing-IsSound o reason db db' at_broker failed) (ground arith)))
        ]

module _ (env : Surroundings) (payload : OrderCreate) (db : Db) where
  pub creation-Evolves : Evolves db (begin (creation_block env payload) db).1
  creation-Evolves =
      begin_keeps (Evolves db) (creation_block env payload) db (Evolves-same db db refl)
        λ (r, should_route) db' run.
          elim (creation_block-cases env payload r should_route db db' run) [
            | inl same ↦ Evolves-same db db' (ap (λ (d : Db). d.orders) same)
            | inr (a, found, placed) ↦
                Evolves-append db db' r
                  (place_order-orders env payload a r should_route db db' placed)
          ]

-- What the block that marks a failure keeps, the end of `create_order` keeps.
pub submit-keeps :
    (P : Db → Type 0)
    → ((id : ℕ) (reason : String) (db : Db) → P db → P (mark_routing_failure id reason db).1)
    → (failure : Option String) (x : Result (Order × Bool) × Db) → P x.1
    → P (submit failure x).1
unfolding submit
submit-keeps P keeps failure (err e, db) p = p
submit-keeps P keeps none (ok (o, routed_now), db) p = p
submit-keeps P keeps (some reason) (ok (o, false), db) p = p
submit-keeps P keeps (some reason) (ok (o, true), db) p =
    let q = keeps o.id reason db p in
    elim (Result-cases (mark_routing_failure o.id reason db).0) [
      | inl (e, failed) ↦ rw (failed, submit) q
      | inr (u, done) ↦ rw (done, submit) q
    ]

module _ (env : Surroundings) (payload : OrderCreate) (failure : Option String) (db : Db) where
  -- Whether the creation succeeds, fails or cannot be routed, the reserves stay backed.
  pub create_order-Backed : Backed db → Backed (create_order env payload failure db).1
  unfolding create_order
  create_order-Backed b =
      submit-keeps Backed mark_routing_failure-Backed failure _ (creation-Backed env payload db b)

  -- Whether the creation succeeds, fails or cannot be routed, every stored order is sound.
  pub create_order-AllSound :
      AllSound db.orders → AllSound (create_order env payload failure db).1.orders
  unfolding create_order
  create_order-AllSound all =
      submit-keeps (λ d. AllSound d.orders) mark_routing_failure-AllSound failure _
        (creation-AllSound env payload db all)
