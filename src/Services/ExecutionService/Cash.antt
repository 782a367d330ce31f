-- ===== src/Services/ExecutionService/Cash.antt =====
-- Broker events keep every account's reserve backed.
use order_management_system.Services.ExecutionService.Settling.{
  apply_rejection-Settles, book_fill-Settles, cancel_remaining-Settles, cancelled_order,
}
use order_management_system.Prelude.{
  ap, ◌==◌, ℕ, ◌+◌, ◌≤◌, ◌≡◌, refl, String, Bool, true, none, some, List, arith, Option-cases, inl,
  inr, Bool-cases, nat_eq,
}
use order_management_system.Prelude.Table.{find, is_some, find-replace_self, find-key}
use order_management_system.Domain.Enums.{
  BrokerEventType, full_fill, partial_fill, OrderStatus, OrderEventType, status_in, filled, routed,
  partially_filled, full_fill_received, partial_fill_received, status_eq, tif_index, ioc,
}
use order_management_system.Domain.Errors.{ok}
use order_management_system.Models.{Db, Order, DataValue, BrokerExecutionEvent}
use order_management_system.Persistence.Session.{>>=-inv, >>pure-inv, begin_keeps}
use order_management_system.Persistence.Events.{lookup_event}
use order_management_system.Services.Lifecycle.{transition}
use order_management_system.Keys.{order_key}
use order_management_system.Accounting.{
  order_id, held, Backed, Backed-frame, IsBacked-order, Settles-Backed,
}
use order_management_system.Services.ExecutionService.{
  Reply, apply_priced_fill, record_outcome, handle_new_event, book_fill, cancel_ioc_remainder,
  live_statuses, cancel_remaining, fill_order, after_fill, execute_fill, apply_fill,
  apply_rejection, apply_cancellation, dispatch, handle_event, process_event,
}

cancel_remaining-Backed :
    (o r : Order) (reason : String) (event_data : List (String × DataValue)) (db db' : Db)
    → Backed db
    → find order_id o.id db.orders ≡ some o
    → status_in o.status live_statuses ≡ true
    → cancel_remaining o reason event_data db ≡ ok (r, db')
    → Backed db'
cancel_remaining-Backed o r reason event_data db db' b ho live h =
    Settles-Backed o (cancelled_order o)
      (cancel_remaining-Settles o reason event_data r db db' live h) b ho refl

transition-Backed :
    (o r : Order) (t : OrderStatus) (e : OrderEventType) (d : List (String × DataValue))
    (db db' : Db)
    → Backed db
    → find order_id o.id db.orders ≡ some o
    → held (record o { status = t; version = o.version + 1 }) ≡ held o
    → transition o t e d db ≡ ok (r, db')
    → Backed db'
unfolding transition
transition-Backed o r t e d db db' b ho same h =
    ground
      (arith, IsBacked-order b o (record o { status = t; version = o.version + 1 }) ho refl same)

module _ (o r : Order) (event_data : List (String × DataValue)) (db db' : Db) (b : Backed db)
    (ho : find order_id o.id db.orders ≡ some o)
    (live : status_in o.status live_statuses ≡ true) where
  cancel_ioc_remainder-Backed : cancel_ioc_remainder o event_data db ≡ ok (r, db') → Backed db'
  unfolding cancel_ioc_remainder
  cancel_ioc_remainder-Backed h =
      cancel_remaining-Backed o r "IOC remainder cancelled" event_data _ db' b ho live h

  after_fill-Backed : after_fill o event_data db ≡ ok (r, db') → Backed db'
  after_fill-Backed h = elim (Bool-cases (o.remaining_quantity == 0)) [
    | inl done ↦
        transition-Backed o r filled full_fill_received event_data db db' b ho
          (unfold held in ground (arith, done)) (unfold after_fill in ground (arith, done, h))
    | inr some_left ↦ elim (Bool-cases (tif_index o.time_in_force == tif_index ioc)) [
      | inl now ↦ cancel_ioc_remainder-Backed (unfold after_fill in rw (some_left, now) at h)
      | inr later ↦ elim (Bool-cases (status_eq o.status routed)) [
        | inl waiting ↦
            transition-Backed o r partially_filled partial_fill_received event_data db db' b ho
              (unfold held in ground (arith, waiting))
              (unfold after_fill in rw (some_left, later, waiting) at h)
        | inr part ↦
            Backed-frame db db' (unfold after_fill in ground (arith, h))
              (unfold after_fill in ground (arith, h)) b
      ]
    ]
  ]

book_fill-keeps :
    (o r : Order) (event : BrokerExecutionEvent) (p : ℕ) (db db' : Db)
    → book_fill o event p db ≡ ok (r, db')
    → (order_key r ≡ order_key o) × (r.status ≡ o.status)
unfolding book_fill fill_order
book_fill-keeps o r event p db db' h = ground arith

execute_fill-Backed :
    (o : Order) (event : BrokerExecutionEvent) (p : ℕ) (reply : Reply) (db db' : Db)
    → Backed db
    → find order_id o.id db.orders ≡ some o
    → status_in o.status live_statuses ≡ true
    → event.filled_quantity ≤ o.remaining_quantity
    → execute_fill o event p db ≡ ok (reply, db')
    → Backed db'
unfolding execute_fill
execute_fill-Backed o event p reply db db' b ho live fits h =
    let (taken, mid, booked, rest) = >>=-inv (book_fill o event p) _ db db' h in
    let kept = book_fill-keeps o taken event p db mid booked in
    let settled = book_fill-Settles o taken event p db mid live fits booked in
    let (final, run) = >>pure-inv (after_fill taken _) (true, none) reply mid db' rest in
    after_fill-Backed taken final _ mid db' (Settles-Backed o taken settled b ho kept.0)
      (rw settled.orders (
        find-replace_self order_id taken db.orders o
          (rw (ap (λ (k : ℕ × ℕ × String × String). k.0) kept.0) ho)))
      (rw kept.1 live) run

apply_fill-Backed :
    (o : Order) (event : BrokerExecutionEvent) (reply : Reply) (db db' : Db)
    → Backed db
    → find order_id o.id db.orders ≡ some o
    → apply_fill o event db ≡ ok (reply, db')
    → Backed db'
unfolding apply_fill apply_priced_fill
apply_fill-Backed o event reply db db' b ho h = elim (Option-cases event.fill_price) [
  | inl missing ↦ ground arith
  | inr (p, priced) ↦ ground (arith, execute_fill-Backed o event p reply db db' b ho)
]

module _ (o : Order) (event : BrokerExecutionEvent) (reply : Reply) (db db' : Db) (b : Backed db)
    (ho : find order_id o.id db.orders ≡ some o) where
  apply_rejection-Backed : apply_rejection o event db ≡ ok (reply, db') → Backed db'
  apply_rejection-Backed h = elim (Bool-cases (status_eq o.status routed)) [
    | inl at_broker ↦
        Settles-Backed o _ (apply_rejection-Settles o event reply db db' at_broker h) b ho refl
    | inr elsewhere ↦ unfold apply_rejection in ground arith
  ]

  apply_cancellation-Backed : apply_cancellation o event db ≡ ok (reply, db') → Backed db'
  unfolding apply_cancellation
  apply_cancellation-Backed h = elim (Bool-cases (status_in o.status live_statuses)) [
    | inl live ↦
        let (r, run) =
          >>pure-inv (cancel_remaining o _ _) (true, none) reply db db' (rw live at h) in
        cancel_remaining-Backed o r _ _ db db' b ho live run
    | inr closed ↦ ground arith
  ]

  dispatch-Backed : (t : BrokerEventType) → dispatch t o event db ≡ ok (reply, db') → Backed db'
  unfolding dispatch
  dispatch-Backed full_fill h = apply_fill-Backed o event reply db db' b ho h
  dispatch-Backed partial_fill h = apply_fill-Backed o event reply db db' b ho h
  dispatch-Backed BrokerEventType.rejected h = apply_rejection-Backed h
  dispatch-Backed BrokerEventType.cancelled h = apply_cancellation-Backed h

pub record_outcome_frame :
    (o : Order) (event : BrokerExecutionEvent) (reply : Reply) (answer : Bool) (db db' : Db)
    → record_outcome o event reply db ≡ ok (answer, db')
    → (db'.accounts ≡ db.accounts) × (db'.orders ≡ db.orders)
unfolding record_outcome
record_outcome_frame o event reply answer db db' h = ground arith

handle_new_event-Backed :
    (o : Order) (event : BrokerExecutionEvent) (answer : Bool) (db db' : Db)
    → Backed db
    → find order_id o.id db.orders ≡ some o
    → handle_new_event o event db ≡ ok (answer, db')
    → Backed db'
unfolding handle_new_event
handle_new_event-Backed o event answer db db' b ho h =
    let (reply, mid, done, rest) = >>=-inv (dispatch event.event_type o event) _ db db' h in
    let frame = record_outcome_frame o event reply answer mid db' rest in
    Backed-frame mid db' frame.0 frame.1
      (dispatch-Backed o event reply db mid b ho event.event_type done)

handle_event-Backed :
    (event : BrokerExecutionEvent) (answer : Bool) (db db' : Db)
    → Backed db
    → handle_event event db ≡ ok (answer, db')
    → Backed db'
unfolding handle_event
handle_event-Backed event answer db db' b h =
    elim (Option-cases (find order_id event.order_id db.orders)) [
      | inl unknown ↦ absurd (ground arith)
      | inr (o, ho) ↦ elim (Bool-cases (is_some (lookup_event event.event_id db))) [
        | inl seen ↦ Backed-frame db db' (ground arith) (ground arith) b
        | inr unseen ↦
            handle_new_event-Backed o event answer db db' b
              (find-key order_id event.order_id db.orders o ho) (ground arith)
      ]
    ]

-- Every broker event, applied, ignored or refused, keeps the reserves backed.
pub process_event-Backed :
    (event : BrokerExecutionEvent) (db : Db) → Backed db → Backed (process_event event db).1
unfolding process_event
process_event-Backed event db b =
    begin_keeps Backed (handle_event event) db b
      (λ answer db' run. handle_event-Backed event answer db db' b run)
