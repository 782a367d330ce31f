-- ===== src/Services/ExecutionService/Trail.antt =====
-- What broker events write to the audit trail and to the fills.
use order_management_system.Services.ExecutionService.Logging.{
  Logs, cancel_remaining-Logs, entry, execute_fill-Logs, execute_fill-reply,
}
use order_management_system.Prelude.{
  ◌≡◌, ◌⊎◌, refl, Bool, true, false, none, some, [], ◌∷◌, arith, Option-cases, inl, inr, Bool-cases,
  nat_eq, subst,
}
use order_management_system.Prelude.Table.{find, is_some, find-key, replace_self}
use order_management_system.Domain.Enums.{
  OrderStatus, OrderEventType, BrokerEventType, full_fill, partial_fill, status_in, status_eq,
  broker_event_value, routed, broker_event_ignored,
}
use order_management_system.Domain.StateMachine.{ensure_transition_allowed}
use order_management_system.Domain.Errors.{ok, Result-cases}
use order_management_system.Models.{Db, Order, DataValue, BrokerExecutionEvent}
use order_management_system.Persistence.Session.{>>=-inv, >>pure-inv, begin_keeps}
use order_management_system.Persistence.Events.{lookup_event}
use order_management_system.Services.Lifecycle.{transition}
use order_management_system.Accounting.{order_id}
use order_management_system.Journal.{append-nil, IsJournal, IsJournal-same}
use order_management_system.Journal.Changes.{Journals-IsJournal}
use order_management_system.Services.ExecutionService.Settling.{rejected_order}
use order_management_system.Services.ExecutionService.{
  Reply, or_else, live_statuses, cancel_remaining, execute_fill, apply_fill, apply_priced_fill,
  apply_rejection, apply_cancellation, dispatch, record_outcome, handle_new_event, handle_event,
  process_event,
}

-- What a handler has done: it declined, or it applied the event.
abbrev Handled : Order → Reply → Db → Db → Type 0
Handled o reply db db' = ((reply.0 ≡ false) × (db' ≡ db)) ⊎ ((reply.0 ≡ true) × Logs o db db')

module _ (o : Order) (event : BrokerExecutionEvent) (reply : Reply) (db db' : Db)
    (ho : find order_id o.id db.orders ≡ some o) where
  apply_fill-Handled : apply_fill o event db ≡ ok (reply, db') → Handled o reply db db'
  unfolding apply_fill apply_priced_fill
  apply_fill-Handled h = elim (Option-cases event.fill_price) [
    | inl missing ↦ inl (ground arith)
    | inr (p, priced) ↦ elim (Result-cases (execute_fill o event p db)) [
      | inl (e, failed) ↦ inl (ground arith)
      | inr ((reply', done), run) ↦
          let logs = execute_fill-Logs o event p reply' db done ho run in
          let says = execute_fill-reply o event p reply' db done run in
          elim (Bool-cases reply.0) [
            | inl applied ↦ inr (applied, subst (λ d. Logs o db d) (ground arith) logs)
            | inr declined ↦ inl (ground arith)
          ]
    ]
  ]

  apply_rejection-Handled : apply_rejection o event db ≡ ok (reply, db') → Handled o reply db db'
  unfolding apply_rejection transition ensure_transition_allowed
  apply_rejection-Handled h = elim (Bool-cases (status_eq o.status routed)) [
    | inl at_broker ↦ inr (
      ground arith,
      (
        rejected_order o (or_else event.reason "Rejected by broker"),
        entry o.id OrderEventType.order_rejected o.status OrderStatus.rejected (
              ("broker_event_id", DataValue.uuid event.event_id)
              ∷ ("reason", DataValue.text (or_else event.reason "Rejected by broker"))
              ∷ [])
            ∷ [],
        [],
        record {
          orders = ground arith;
          events = ground arith;
          fills = ground (arith, append-nil db.fills);
          same_id = refl;
          walk = ground arith;
          filled = omega arith;
          own = λ k other. refl;
        },
      ),
    )
    | inr elsewhere ↦ inl (ground arith)
  ]

  apply_cancellation-Handled :
      apply_cancellation o event db ≡ ok (reply, db') → Handled o reply db db'
  unfolding apply_cancellation
  apply_cancellation-Handled h = elim (Bool-cases (status_in o.status live_statuses)) [
    | inl live ↦
        let (r, run) =
          >>pure-inv (cancel_remaining o _ _) (true, none) reply db db' (rw live at h) in
        inr (ground arith, (cancel_remaining-Logs o r _ _ db db' run).0)
    | inr closed ↦ inl (ground arith)
  ]

  dispatch-Handled :
      (t : BrokerEventType) → dispatch t o event db ≡ ok (reply, db') → Handled o reply db db'
  unfolding dispatch
  dispatch-Handled full_fill h = apply_fill-Handled h
  dispatch-Handled partial_fill h = apply_fill-Handled h
  dispatch-Handled BrokerEventType.rejected h = apply_rejection-Handled h
  dispatch-Handled BrokerEventType.cancelled h = apply_cancellation-Handled h

record_outcome_applied :
    (o : Order) (event : BrokerExecutionEvent) (reply : Reply) (answer : Bool) (db db' : Db)
    → reply.0 ≡ true
    → record_outcome o event reply db ≡ ok (answer, db')
    → (db'.orders ≡ db.orders) × (db'.order_events ≡ db.order_events) × (db'.fills ≡ db.fills)
unfolding record_outcome
record_outcome_applied o event reply answer db db' says h = ground arith

record_outcome_declined :
    (o : Order) (event : BrokerExecutionEvent) (reply : Reply) (answer : Bool) (db db' : Db)
    → find order_id o.id db.orders ≡ some o
    → reply.0 ≡ false
    → record_outcome o event reply db ≡ ok (answer, db')
    → Logs o db db'
unfolding record_outcome
record_outcome_declined o event reply answer db db' ho says h = (
  o,
  entry o.id broker_event_ignored o.status o.status (
        ("broker_event_id", DataValue.uuid event.event_id)
        ∷ ("event_type", DataValue.text (broker_event_value event.event_type))
        ∷ ("reason", DataValue.optional_text reply.1)
        ∷ [])
      ∷ [],
  [],
  record {
    orders = ground (arith, replace_self order_id db.orders o ho);
    events = ground arith;
    fills = ground (arith, append-nil db.fills);
    same_id = refl;
    walk = (refl, (refl, inl refl), refl);
    filled = omega arith;
    own = λ k other. refl;
  },
)

Logs-IsJournal :
    (o : Order) (db db' : Db)
    → find order_id o.id db.orders ≡ some o
    → Logs o db db'
    → IsJournal db
    → IsJournal db'
Logs-IsJournal o db db' ho (r, es, fs, j) v = Journals-IsJournal o r es fs db db' j ho v

handle_new_event-IsJournal :
    (o : Order) (event : BrokerExecutionEvent) (answer : Bool) (db db' : Db)
    → find order_id o.id db.orders ≡ some o
    → handle_new_event o event db ≡ ok (answer, db')
    → IsJournal db
    → IsJournal db'
unfolding handle_new_event
handle_new_event-IsJournal o event answer db db' ho h v =
    let (reply, mid, done, rest) = >>=-inv (dispatch event.event_type o event) _ db db' h in
    elim (dispatch-Handled o event reply db mid ho event.event_type done) [
      | inl (says, same) ↦
          Logs-IsJournal o db db' ho
            (record_outcome_declined o event reply answer db db' ho says
              (subst (λ d. record_outcome o event reply d ≡ ok (answer, db')) same rest))
            v
      | inr (says, logs) ↦
          let (orders, events, fills) =
            record_outcome_applied o event reply answer mid db' says rest in
          IsJournal-same mid db' orders events fills (Logs-IsJournal o db mid ho logs v)
    ]

-- Every broker event keeps the audit trail and the fills in agreement with the orders.
pub process_event-IsJournal :
    (event : BrokerExecutionEvent) (db : Db) → IsJournal db → IsJournal (process_event event db).1
unfolding process_event handle_event
process_event-IsJournal event db v =
    begin_keeps IsJournal (handle_event event) db v λ answer db' run.
      elim (Option-cases (find order_id event.order_id db.orders)) [
        | inl unknown ↦ absurd (ground arith)
        | inr (o, ho) ↦ elim (Bool-cases (is_some (lookup_event event.event_id db))) [
          | inl seen ↦ IsJournal-same db db' (ground arith) (ground arith) (ground arith) v
          | inr unseen ↦
              handle_new_event-IsJournal o event answer db db'
                (find-key order_id event.order_id db.orders o ho) (ground arith) v
        ]
      ]
