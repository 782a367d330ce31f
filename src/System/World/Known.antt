-- ===== src/System/World/Known.antt =====
-- The orders that the answers of the simulated broker are about.
use order_management_system.Prelude.{
  ℕ, ◌≡◌, refl, ap, subst, String, true, some, arith, nat_eq, inl, inr, Option-cases, ◌==◌,
  Bool-cases, Bool, ◌-◌, ltb, ◌&&◌,
}
use order_management_system.Prelude.Table.{find, find-append_self, key-find}
use order_management_system.Domain.Enums.{tif_index, ioc}
use order_management_system.Domain.Errors.{Result, ok}
use order_management_system.Models.{Db, Order, OrderCreate, BrokerExecutionEvent}
use order_management_system.Persistence.Session.{Tx, begin}
use order_management_system.Services.OrderService.{Surroundings, creation_block}
use order_management_system.Services.CancellationService.{request_cancellation}
use order_management_system.Services.ExecutionService.{process_event}
use order_management_system.Accounting.{order_id}
use order_management_system.Soundness.Evolution.{Evolves}
use order_management_system.Broker.{
  broker_order, Draws, Drawn, draw_full, draw_partial, draw_rejected, simulate_order,
  simulate_outcome, follow_up, full_fill_event, partial_fill_event, rejection_event,
  simulate_cancellation, partial_quantity,
}
use order_management_system.Broker.Tasks.{FakeBroker, submit_order, cancel_task, close, take_event}
use order_management_system.System.{
  Step, create, request_cancel, broker_event, Step-Evolves, Step-IsConsistent, IsConsistent,
  empty-IsConsistent,
}
use order_management_system.System.World.Events.{
  Known, AllKnown, TasksKnown, TasksKnown-append, AllKnown-stays, TasksKnown-stays, put_next-Known,
  on_task_done-Known, taken-Known,
}
use order_management_system.System.World.{
  World, genesis, Happens, block, submits, asks, puts, ends, works, closes, Comes, now, later,
}
use order_management_system.Services.OrderService.{place_order}
use order_management_system.Services.OrderService.Placement.{
  place_order-orders, place_order-IsFreshRow,
}
use order_management_system.Services.CancellationService.{cancellation_block, request_of}
use order_management_system.Services.Lifecycle.{transition}
use order_management_system.Models.{Account}
use order_management_system.Persistence.Orders.{by_idempotency_key}
use order_management_system.Accounting.{account_id}

follow_up-Known :
    (db : Db) (o : Order) (draws : Draws)
    → Known db o.id
    → AllKnown db (follow_up (broker_order o) draws)
unfolding follow_up full_fill_event
follow_up-Known db o draws k = elim (Bool-cases (tif_index o.time_in_force == tif_index ioc)) [
  | inl now_only ↦ rw now_only tt
  | inr later_too ↦
      elim (Bool-cases (
        ltb 0 (
          o.remaining_quantity
          - partial_quantity o.remaining_quantity draws.ratio_above draws.ratio_below)
        && draws.follows)) [
          | inl follows ↦ rw (later_too, follows) (k, tt)
          | inr ends_here ↦ rw (later_too, ends_here) tt
        ]
]

simulated-Known :
    (db : Db) (o : Order) (draws : Draws) (drawn : Drawn)
    → Known db o.id
    → AllKnown db (simulate_outcome drawn (broker_order o) draws)
unfolding simulate_outcome full_fill_event partial_fill_event rejection_event
simulated-Known db o draws draw_full k = (k, tt)
simulated-Known db o draws draw_rejected k = (k, tt)
simulated-Known db o draws draw_partial k = (k, follow_up-Known db o draws k)

stored : (db db' : Db) → Evolves db db' → (id : ℕ) → Known db id → Known db' id
stored db db' evolves id (o, h) = let (r, found, later_) = evolves id o h in (r, found)

-- What a broker owes is about orders that are stored.
pub record IsHonest (w : World) : Type 0 where
  pub consistent : IsConsistent w.db
  pub queued : AllKnown w.db w.broker.queue
  pub owed : TasksKnown w.db w.broker.tasks

-- An order that is handed to the broker has just been stored.
creation_routes :
    (env : Surroundings) (payload : OrderCreate) (r : Order) (db db' : Db)
    → creation_block env payload db ≡ ok ((r, true), db')
    → (a : Account) × (place_order env payload a db ≡ ok ((r, true), db'))
unfolding creation_block
creation_routes env payload r db db' h =
    elim (Option-cases (find account_id payload.account_id db.accounts)) [
      | inl unknown ↦ absurd (ground arith)
      | inr (a, found) ↦
          elim (Option-cases (by_idempotency_key payload.account_id payload.idempotency_key db)) [
            | inr (earlier, seen) ↦ absurd (ground arith)
            | inl unseen ↦ (a, ground arith)
          ]
    ]

begun :
    {A : Type 0} (m : Tx A) (a : A) (db db' : Db) → begin m db ≡ (ok a, db') → m db ≡ ok (a, db')
begun m a db db' h = ground arith

submitted-Known :
    (env : Surroundings) (payload : OrderCreate) (r : Order) (db db' : Db)
    → begin (creation_block env payload) db ≡ (ok (r, true), db')
    → Known db' r.id
submitted-Known env payload r db db' h =
    let (a, placed) =
      creation_routes env payload r db db'
        (begun (creation_block env payload) (r, true) db db' h) in
    let added = place_order-orders env payload a r true db db' placed in
    let fresh = place_order-IsFreshRow env payload a r true db db' placed in
    (r, rw added (find-append_self order_id r db.orders fresh.fresh_id))

asked-id :
    (id : ℕ) (reason : String) (r : Order) (db db' : Db)
    → request_cancellation id reason db ≡ (ok (r, true), db')
    → Known db r.id
unfolding request_cancellation cancellation_block request_of transition
asked-id id reason r db db' h = elim (Option-cases (find order_id id db.orders)) [
  | inl unknown ↦ absurd (ground arith)
  | inr (o, ho) ↦
      let own = key-find order_id id db.orders o ho in
      let same : r.id ≡ id = ground arith in (o, rw same ho)
]

-- A block keeps what the broker owes about stored orders.
module _ {w : World} {db' : Db} (s : Step w.db db') (h : IsHonest w) where
  block-stays : (id : ℕ) → Known w.db id → Known db' id
  block-stays = stored w.db db' (Step-Evolves s h.consistent.sound)

  block-queued : AllKnown db' w.broker.queue
  block-queued = AllKnown-stays w.db db' block-stays w.broker.queue h.queued

  block-owed : TasksKnown db' w.broker.tasks
  block-owed = TasksKnown-stays w.db db' block-stays w.broker.tasks h.owed

-- Every move keeps the broker honest.
pub Happens-IsHonest : {w v : World} → Happens w v → IsHonest w → IsHonest v
unfolding submit_order cancel_task close simulate_order simulate_cancellation
Happens-IsHonest {w} (block {db'} s) h = record {
  consistent = Step-IsConsistent s h.consistent;
  queued = block-queued {w = w} s h;
  owed = block-owed {w = w} s h;
}
Happens-IsHonest {w} (submits {db'} env payload order draws run) h =
    let s : Step w.db db' =
      subst (Step w.db) (ap (λ (x : Result (Order × Bool) × Db). x.1) run) (create env payload) in
    record {
      consistent = Step-IsConsistent s h.consistent;
      queued = block-queued {w = w} s h;
      owed = TasksKnown-append db' w.broker.tasks _ (block-owed {w = w} s h) (
        simulated-Known db' order draws draws.outcome
            (submitted-Known env payload order w.db db' run),
        tt,
      );
    }
Happens-IsHonest {w} (asks {db'} id reason order event_id timestamp run) h =
    let s : Step w.db db' =
      subst (Step w.db) (ap (λ (x : Result (Order × Bool) × Db). x.1) run)
        (request_cancel id reason) in
    record {
      consistent = Step-IsConsistent s h.consistent;
      queued = block-queued {w = w} s h;
      owed =
          TasksKnown-append db' w.broker.tasks _ (block-owed {w = w} s h)
            ((block-stays {w = w} s h order.id (asked-id id reason order w.db db' run), tt), tt);
    }
Happens-IsHonest {w} (puts id) h =
    let (queued, owed) = put_next-Known w.db id w.broker (h.queued, h.owed) in
    record { consistent = h.consistent; queued = queued; owed = owed }
Happens-IsHonest {w} (ends id) h =
    let (queued, owed) = on_task_done-Known w.db id w.broker (h.queued, h.owed) in
    record { consistent = h.consistent; queued = queued; owed = owed }
Happens-IsHonest {w} (works {b} event taken) h =
    let (known, (queued, owed)) =
      taken-Known w.db event w.broker.queue w.broker b refl taken (h.queued, h.owed) in
    let s : Step w.db (process_event event w.db).1 = broker_event event in
    record {
      consistent = Step-IsConsistent s h.consistent;
      queued =
          AllKnown-stays w.db (process_event event w.db).1 (block-stays {w = w} s h) b.queue queued;
      owed =
          TasksKnown-stays w.db (process_event event w.db).1 (block-stays {w = w} s h) b.tasks owed;
    }
Happens-IsHonest {w} closes h = record { consistent = h.consistent; queued = h.queued; owed = tt }

pub Comes-IsHonest : {w v : World} → IsHonest w → Comes w v → IsHonest v
Comes-IsHonest h now = h
Comes-IsHonest h (later r s) = Happens-IsHonest s (Comes-IsHonest h r)

pub genesis-IsHonest : IsHonest genesis
genesis-IsHonest = record { consistent = empty-IsConsistent; queued = tt; owed = tt }

-- Whatever happens between the clients, the market, the workers and the simulated broker, an event that
-- the worker takes from the queue is about an order that is stored.
pub taken_event_known :
    {w : World}
    → Comes genesis w
    → (event : BrokerExecutionEvent) (b : FakeBroker) → take_event w.broker ≡ some (event, b)
    → (o : Order) × (find order_id event.order_id w.db.orders ≡ some o)
taken_event_known {w} r event b taken =
    let h = Comes-IsHonest genesis-IsHonest r in
    (taken-Known w.db event w.broker.queue w.broker b refl taken (h.queued, h.owed)).0
