-- ===== src/Services/ExecutionService/Seen.antt =====
-- The record of processed events only grows.
use order_management_system.Prelude.{
  ℕ, ◌≡◌, ◌∙◌, String, true, none, List, arith, ◌==◌, Option-cases, inl, inr, Bool-cases, nat_eq,
}
use order_management_system.Prelude.Table.{find, is_some, find_where-append}
use order_management_system.Domain.Enums.{
  OrderStatus, OrderEventType, BrokerEventType, full_fill, partial_fill, status_in,
}
use order_management_system.Domain.Errors.{ok, Result-cases}
use order_management_system.Models.{
  Db, Order, DataValue, BrokerExecutionEvent, ProcessedBrokerEvent,
}
use order_management_system.Persistence.Session.{>>=-inv, >>pure-inv, begin_keeps}
use order_management_system.Persistence.Events.{lookup_event}
use order_management_system.Services.Lifecycle.{transition}
use order_management_system.Services.PositionService.{apply_execution}
use order_management_system.Accounting.{order_id}
use order_management_system.Services.ExecutionService.Duplicates.{outcome_row, record_outcome-row}
use order_management_system.Services.ExecutionService.{
  Reply, live_statuses, new_fill, cancel_ioc_remainder, cancel_remaining, after_fill, book_fill,
  execute_fill, apply_fill, apply_priced_fill, apply_rejection, apply_cancellation, dispatch,
  record_outcome, handle_new_event, handle_event, process_event,
}

-- A block has left the record alone.
abbrev SameRecord : Db → Db → Type 0
SameRecord db db' = db'.processed_events ≡ db.processed_events

cancel_remaining-same :
    (o r : Order) (reason : String) (d : List (String × DataValue)) (db db' : Db)
    → cancel_remaining o reason d db ≡ ok (r, db')
    → SameRecord db db'
unfolding cancel_remaining transition
cancel_remaining-same o r reason d db db' h = ground arith

transition-same :
    (o r : Order) (t : OrderStatus) (e : OrderEventType) (d : List (String × DataValue))
    (db db' : Db)
    → transition o t e d db ≡ ok (r, db')
    → SameRecord db db'
unfolding transition
transition-same o r t e d db db' h = ground arith

after_fill-same :
    (o r : Order) (d : List (String × DataValue)) (db db' : Db)
    → after_fill o d db ≡ ok (r, db')
    → SameRecord db db'
unfolding after_fill cancel_ioc_remainder cancel_remaining transition
after_fill-same o r d db db' h = ground arith

book_fill-same :
    (o r : Order) (event : BrokerExecutionEvent) (p : ℕ) (db db' : Db)
    → book_fill o event p db ≡ ok (r, db')
    → SameRecord db db'
unfolding book_fill apply_execution new_fill
book_fill-same o r event p db db' h = ground arith

execute_fill-same :
    (o : Order) (event : BrokerExecutionEvent) (p : ℕ) (reply : Reply) (db db' : Db)
    → execute_fill o event p db ≡ ok (reply, db')
    → SameRecord db db'
unfolding execute_fill
execute_fill-same o event p reply db db' h =
    let (taken, mid, booked, rest) = >>=-inv (book_fill o event p) _ db db' h in
    let (final, run) = >>pure-inv (after_fill taken _) (true, none) reply mid db' rest in
    after_fill-same taken final _ mid db' run ∙ book_fill-same o taken event p db mid booked

module _ (o : Order) (event : BrokerExecutionEvent) (reply : Reply) (db db' : Db) where
  apply_fill-same : apply_fill o event db ≡ ok (reply, db') → SameRecord db db'
  unfolding apply_fill apply_priced_fill
  apply_fill-same h = elim (Option-cases event.fill_price) [
    | inl missing ↦ ground arith
    | inr (p, priced) ↦ elim (Result-cases (execute_fill o event p db)) [
      | inl (e, failed) ↦ ground arith
      | inr ((reply', done), run) ↦ ground (arith, execute_fill-same o event p reply' db done run)
    ]
  ]

  dispatch-same :
      (t : BrokerEventType) → dispatch t o event db ≡ ok (reply, db') → SameRecord db db'
  unfolding dispatch apply_rejection apply_cancellation transition
  dispatch-same full_fill h = apply_fill-same h
  dispatch-same partial_fill h = apply_fill-same h
  dispatch-same BrokerEventType.rejected h = ground arith
  dispatch-same BrokerEventType.cancelled h = elim (Bool-cases (status_in o.status live_statuses)) [
    | inl live ↦
        let (r, run) =
          >>pure-inv (cancel_remaining o _ _) (true, none) reply db db' (rw live at h) in
        cancel_remaining-same o r _ _ db db' run
    | inr closed ↦ ground arith
  ]

-- What was recorded stays recorded when another event is processed.
pub process_event-keeps_seen :
    (event : BrokerExecutionEvent) (id : ℕ) (db : Db)
    → is_some (lookup_event id db) ≡ true
    → is_some (lookup_event id (process_event event db).1) ≡ true
unfolding process_event handle_event handle_new_event
process_event-keeps_seen event id db seen =
    begin_keeps (λ d. is_some (lookup_event id d) ≡ true) (handle_event event) db seen
      λ answer db' run. elim (Option-cases (find order_id event.order_id db.orders)) [
        | inl unknown ↦ absurd (ground arith)
        | inr (o, ho) ↦ elim (Bool-cases (is_some (lookup_event event.event_id db))) [
          | inl before ↦ ground arith
          | inr unseen ↦
              let (reply, mid, done, rest) =
                >>=-inv (dispatch event.event_type o event) (record_outcome o event) db db'
                  (ground arith) in
              let same = dispatch-same o event reply db mid event.event_type done in
              let (fresh, rows) = record_outcome-row o event reply answer mid db' rest in
              ground (
                arith,
                find_where-append (λ (e : ProcessedBrokerEvent). e.broker_event_id == id)
                    mid.processed_events (outcome_row event reply),
              )
        ]
      ]
