-- ===== src/Services/ExecutionService/Duplicates.antt =====
-- A broker event that is delivered again.
use order_management_system.Prelude.{
  if◌then◌else◌, ◌++◌, ◌∷◌, subst, [], ◌≡◌, refl, Bool, true, false, some, none, inl, inr, arith,
  Option-cases, Bool-cases, nat_eq,
}
use order_management_system.Prelude.Table.{find-append_self, find, is_some}
use order_management_system.Domain.Errors.{ok, Result-cases}
use order_management_system.Models.{
  Db, Order, BrokerExecutionEvent, ProcessedBrokerEvent, applied, ignored,
}
use order_management_system.Persistence.Session.{begin, >>=-inv}
use order_management_system.Persistence.Events.{lookup_event}
use order_management_system.Accounting.{order_id}
use order_management_system.Soundness.{AllSound}
use order_management_system.Services.ExecutionService.Rows.{process_event-Evolves}
use order_management_system.Services.ExecutionService.{
  Reply, dispatch, record_outcome, handle_new_event, handle_event, process_event,
}

-- An event that has been recorded is recognised, whatever it says.
pub seen-refused :
    (event : BrokerExecutionEvent) (o : Order) (db : Db)
    → find order_id event.order_id db.orders ≡ some o
    → is_some (lookup_event event.event_id db) ≡ true
    → handle_event event db ≡ ok (false, db)
unfolding handle_event
seen-refused event o db ho seen = ground arith

abbrev pub outcome_row : BrokerExecutionEvent → Reply → ProcessedBrokerEvent
outcome_row event (was_applied, reason) = record {
  broker_event_id = event.event_id;
  order_id = event.order_id;
  event_type = event.event_type;
  broker_timestamp = event.timestamp;
  outcome = if was_applied then applied else ignored;
  details = reason;
}

pub record_outcome-row :
    (o : Order) (event : BrokerExecutionEvent) (reply : Reply) (answer : Bool) (db db' : Db)
    → record_outcome o event reply db ≡ ok (answer, db')
    → (lookup_event event.event_id db ≡ none)
      × (db'.processed_events ≡ db.processed_events ++ outcome_row event reply ∷ [])
unfolding record_outcome
record_outcome-row o event reply answer db db' h = ground arith

record_outcome-seen :
    (o : Order) (event : BrokerExecutionEvent) (reply : Reply) (answer : Bool) (db db' : Db)
    → record_outcome o event reply db ≡ ok (answer, db')
    → is_some (lookup_event event.event_id db') ≡ true
record_outcome-seen o event reply answer db db' h =
    let (fresh, rows) = record_outcome-row o event reply answer db db' h in
    rw
      (
        rows,
        find-append_self (λ (e : ProcessedBrokerEvent). e.broker_event_id) (outcome_row event reply)
            db.processed_events fresh,
      )
      refl

pub handle_event-seen :
    (event : BrokerExecutionEvent) (answer : Bool) (db db' : Db)
    → handle_event event db ≡ ok (answer, db')
    → is_some (lookup_event event.event_id db') ≡ true
unfolding handle_event handle_new_event
handle_event-seen event answer db db' h =
    elim (Option-cases (find order_id event.order_id db.orders)) [
      | inl unknown ↦ absurd (ground arith)
      | inr (o, ho) ↦ elim (Bool-cases (is_some (lookup_event event.event_id db))) [
        | inl seen ↦ ground arith
        | inr unseen ↦
            let (reply, mid, done, rest) =
              >>=-inv (dispatch event.event_type o event) (record_outcome o event) db db'
                (ground arith) in
            record_outcome-seen o event reply answer mid db' rest
      ]
    ]

pub handle_event-order :
    (event : BrokerExecutionEvent) (answer : Bool) (db db' : Db)
    → handle_event event db ≡ ok (answer, db')
    → (o : Order) × (find order_id event.order_id db.orders ≡ some o)
unfolding handle_event
handle_event-order event answer db db' h =
    elim (Option-cases (find order_id event.order_id db.orders)) [
      | inl unknown ↦ absurd (ground arith)
      | inr (o, ho) ↦ (o, ho)
    ]

-- Among sound orders, an event whose block was committed, be it applied or ignored, is answered
-- with `false` when it is delivered once more, and the database stays as it is.
pub process_event-again :
    (event : BrokerExecutionEvent) (answer : Bool) (db : Db)
    → AllSound db.orders
    → (process_event event db).0 ≡ ok answer
    → process_event event (process_event event db).1 ≡ (ok false, (process_event event db).1)
unfolding process_event
process_event-again event answer db all h = elim (Result-cases (handle_event event db)) [
  | inl (e, failed) ↦ absurd (ground arith)
  | inr ((reply, db'), done) ↦
      let seen = handle_event-seen event reply db db' done in
      let (o, ho) = handle_event-order event reply db db' done in
      let (r, hr, later) = process_event-Evolves event db all event.order_id o ho in
      let after : (process_event event db).1 ≡ db' = ground arith in
      let again : handle_event event db' ≡ ok (false, db') =
        seen-refused event r db'
          (subst (λ (d : Db). find order_id event.order_id d.orders ≡ some r) after hr) seen in
      rw (after, again, begin) refl
]
