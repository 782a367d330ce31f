-- ===== src/System/Redelivery.antt =====
-- A broker event that is delivered again, at any later time.
use order_management_system.Prelude.{ℕ, ◌≡◌, Bool, true, false, some, inl, inr, arith, refl, nat_eq}
use order_management_system.Prelude.Table.{find, is_some}
use order_management_system.Domain.Errors.{ok, Result-cases}
use order_management_system.Models.{Db, Order, BrokerExecutionEvent}
use order_management_system.Persistence.Session.{begin}
use order_management_system.Persistence.Events.{lookup_event}
use order_management_system.Accounting.{order_id}
use order_management_system.Services.AccountService.Cash.{create_account-processed}
use order_management_system.Services.MarketDataService.Marks.{apply_tick-frame}
use order_management_system.Services.OrderService.Trail.{
  creation-processed, mark_routing_failure-processed,
}
use order_management_system.Services.CancellationService.Trail.{request_cancellation-processed}
use order_management_system.Services.ExecutionService.{process_event, handle_event}
use order_management_system.Services.ExecutionService.Duplicates.{
  seen-refused, handle_event-seen, handle_event-order,
}
use order_management_system.Services.ExecutionService.Seen.{process_event-keeps_seen}
use order_management_system.System.{
  Step, Reach, here, next, open_account, create, fail_route, request_cancel, tick, broker_event,
  IsConsistent, Reach-Evolves, Step-IsConsistent,
}

Step-keeps_seen :
    {db db' : Db}
    → Step db db'
    → (id : ℕ) → is_some (lookup_event id db) ≡ true
    → is_some (lookup_event id db') ≡ true
Step-keeps_seen {db} (open_account account payload) id h =
    rw (create_account-processed account payload db) h
Step-keeps_seen {db} (create env payload) id h = rw (creation-processed env payload db) h
Step-keeps_seen {db} (fail_route order reason) id h =
    rw (mark_routing_failure-processed order reason db) h
Step-keeps_seen {db} (request_cancel order reason) id h =
    rw (request_cancellation-processed order reason db) h
Step-keeps_seen {db} (tick upper symbol price observed_at) id h =
    rw ((apply_tick-frame upper symbol price observed_at db).4) h
Step-keeps_seen {db} (broker_event event) id h = process_event-keeps_seen event id db h

Reach-keeps_seen :
    {db db' : Db}
    → Reach db db'
    → (id : ℕ) → is_some (lookup_event id db) ≡ true
    → is_some (lookup_event id db') ≡ true
Reach-keeps_seen here id h = h
Reach-keeps_seen (next r s) id h = Step-keeps_seen s id (Reach-keeps_seen r id h)

-- A committed event had its order, and is recorded.
committed-seen :
    (event : BrokerExecutionEvent) (answer : Bool) (db : Db)
    → (process_event event db).0 ≡ ok answer
    → (o : Order) × (find order_id event.order_id db.orders ≡ some o)
      × (is_some (lookup_event event.event_id (process_event event db).1) ≡ true)
unfolding process_event
committed-seen event answer db committed = elim (Result-cases (handle_event event db)) [
  | inl (e, failed) ↦ absurd (ground arith)
  | inr ((reply, db'), done) ↦
      let (o, ho) = handle_event-order event reply db db' done in
      (o, ho, rw (done, begin) (handle_event-seen event reply db db' done))
]

answered :
    (event : BrokerExecutionEvent) (later : Db)
    → handle_event event later ≡ ok (false, later)
    → process_event event later ≡ (ok false, later)
unfolding process_event
answered event later h = rw (h, begin) refl

-- From a consistent database on, an event whose block was committed is answered with `false` whenever
-- it is delivered again, whatever has happened in between, and the database stays as it is.
pub redelivery :
    (event : BrokerExecutionEvent) (answer : Bool) {db later : Db}
    → IsConsistent db
    → (process_event event db).0 ≡ ok answer
    → Reach (process_event event db).1 later
    → process_event event later ≡ (ok false, later)
redelivery event answer {db} {later} c committed r =
    let (o, ho, seen) = committed-seen event answer db committed in
    let (mid_row, at_mid, evolved) =
      Reach-Evolves c (next here (broker_event event)) event.order_id o ho in
    let (row, found, still) =
      Reach-Evolves (Step-IsConsistent (broker_event event) c) r event.order_id mid_row at_mid in
    answered event later
      (seen-refused event row later found (Reach-keeps_seen r event.event_id seen))
