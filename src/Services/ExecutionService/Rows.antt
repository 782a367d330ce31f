-- ===== src/Services/ExecutionService/Rows.antt =====
-- Broker events keep every stored order sound, and never change its terms.
use order_management_system.Prelude.{
  ℕ, ◌+◌, ◌<◌, ◌≤◌, ◌≡◌, ◌≢◌, refl, String, Bool, true, none, some, List, arith, ltb, ◌&&◌, ◌==◌,
  Option-cases, inl, inr, leb, not, Bool-cases, nat_eq, subst, sym,
}
use order_management_system.Prelude.Table.{find, is_some, find-key, replace_self, find-replace_self}
use order_management_system.Domain.Enums.{
  OrderStatus, OrderEventType, BrokerEventType, full_fill, partial_fill, status_in, status_eq,
  filled, routed, partially_filled, tif_index, ioc, full_fill_received, partial_fill_received,
}
use order_management_system.Domain.StateMachine.Progress.{ensure_transition_allowed-rank}
use order_management_system.Domain.Errors.{ok, Result-cases}
use order_management_system.Models.{Db, Order, DataValue, BrokerExecutionEvent, order_columns}
use order_management_system.Persistence.Session.{>>=-inv, >>pure-inv, begin_keeps}
use order_management_system.Services.Lifecycle.{transition}
use order_management_system.Services.PositionService.{apply_execution}
use order_management_system.Accounting.{order_id}
use order_management_system.Services.ExecutionService.Cash.{record_outcome_frame}
use order_management_system.Services.ExecutionService.Settling.{rejected_order}
use order_management_system.Persistence.Events.{lookup_event}
use order_management_system.Soundness.{
  IsSound, AllSound, Rewrites, Rewrites-trans, Effect, untouched, rewritten, Effect-after, no_order,
  one_order, Touches, Touches-AllSound,
}
use order_management_system.Soundness.Evolution.{Evolves, Evolves-same, Touches-Evolves}
use order_management_system.Services.ExecutionService.{
  Reply, is_full_fill, or_else, new_fill, live_statuses, cancel_ioc_remainder, cancel_remaining,
  fill_order, after_fill, book_fill, execute_fill, apply_fill, apply_priced_fill, apply_rejection,
  apply_cancellation, dispatch, handle_new_event, handle_event, process_event,
}

-- An order that has taken a fill, or is about to lose its remainder: not yet at rest.
pub record InFlight (o : Order) : Type 0 where
  pub priced : 0 < o.price
  pub conserved : o.filled_quantity + o.cancelled_quantity + o.remaining_quantity ≡ o.quantity
  pub uncancelled : o.cancelled_quantity ≡ 0
  pub live : status_in o.status live_statuses ≡ true
  pub never_rests : tif_index o.time_in_force ≡ tif_index ioc → o.status ≢ partially_filled
  pub columns : order_columns o ≡ true

IsSound-InFlight : (o : Order) → IsSound o → status_in o.status live_statuses ≡ true → InFlight o
IsSound-InFlight o s live = ground arith

transition-Rewrites :
    (o r : Order) (t : OrderStatus) (e : OrderEventType) (d : List (String × DataValue))
    (db db' : Db)
    → transition o t e d db ≡ ok (r, db')
    → (r ≡ record o { status = t; version = o.version + 1 }) × Rewrites o r db db'
unfolding transition
transition-Rewrites o r t e d db db' h = (
  ground arith,
  record {
    terms = ground arith;
    progress = ground (arith, ensure_transition_allowed-rank o.status t);
    orders = ground arith;
  },
)

cancel_remaining-Rewrites :
    (o r : Order) (reason : String) (d : List (String × DataValue)) (db db' : Db)
    → InFlight o
    → 0 < o.remaining_quantity
    → cancel_remaining o reason d db ≡ ok (r, db')
    → Rewrites o r db db' × IsSound r
unfolding cancel_remaining transition
cancel_remaining-Rewrites o r reason d db db' f left h = (ground arith, ground arith)

book_fill-Rewrites :
    (o r : Order) (event : BrokerExecutionEvent) (p : ℕ) (db db' : Db)
    → InFlight o
    → 0 < event.filled_quantity
    → event.filled_quantity ≤ o.remaining_quantity
    → book_fill o event p db ≡ ok (r, db')
    → Rewrites o r db db' × InFlight r × (0 < r.filled_quantity)
unfolding book_fill fill_order apply_execution new_fill
book_fill-Rewrites o r event p db db' f some_filled fits h =
    (ground arith, ground arith, ground arith)

module _ (o r : Order) (d : List (String × DataValue)) (db db' : Db) (f : InFlight o)
    (some_filled : 0 < o.filled_quantity) (ho : find order_id o.id db.orders ≡ some o) where
  cancel_ioc_remainder-Rewrites :
      0 < o.remaining_quantity
      → cancel_ioc_remainder o d db ≡ ok (r, db')
      → Rewrites o r db db' × IsSound r
  unfolding cancel_ioc_remainder
  cancel_ioc_remainder-Rewrites left h =
      let (w, s) = cancel_remaining-Rewrites o r "IOC remainder cancelled" d _ db' f left h in
      (record { terms = w.terms; progress = w.progress; orders = w.orders }, s)

  after_fill-Rewrites : after_fill o d db ≡ ok (r, db') → Rewrites o r db db' × IsSound r
  unfolding after_fill
  after_fill-Rewrites h = elim (Bool-cases (o.remaining_quantity == 0)) [
    | inl done ↦
        let (e, w) = transition-Rewrites o r filled full_fill_received d db db' (ground arith) in
        (w, ground arith)
    | inr more ↦ elim (Bool-cases (tif_index o.time_in_force == tif_index ioc)) [
      | inl immediate ↦ cancel_ioc_remainder-Rewrites (ground arith) (ground arith)
      | inr resting ↦ elim (Bool-cases (status_eq o.status routed)) [
        | inl first ↦
            let (e, w) =
              transition-Rewrites o r partially_filled partial_fill_received d db db'
                (ground arith) in
            (w, ground arith)
        | inr later ↦ (
          record {
            terms = ground arith;
            progress = ground arith;
            orders = ground (arith, replace_self order_id db.orders o ho);
          },
          ground arith,
        )
      ]
    ]
  ]

execute_fill-Effect :
    (o : Order) (event : BrokerExecutionEvent) (p : ℕ) (reply : Reply) (db db' : Db)
    → InFlight o
    → 0 < event.filled_quantity
    → event.filled_quantity ≤ o.remaining_quantity
    → find order_id o.id db.orders ≡ some o
    → execute_fill o event p db ≡ ok (reply, db')
    → (r : Order) × Rewrites o r db db' × IsSound r
unfolding execute_fill
execute_fill-Effect o event p reply db db' f some_filled fits ho h =
    let (taken, mid, booked, rest) = >>=-inv (book_fill o event p) _ db db' h in
    let (written, flying, filling) =
      book_fill-Rewrites o taken event p db mid f some_filled fits booked in
    let (final, run) = >>pure-inv (after_fill taken _) (true, none) reply mid db' rest in
    let row : find order_id taken.id mid.orders ≡ some taken = rw written.orders (
      find-replace_self order_id taken db.orders o
        (subst (λ k. find order_id k db.orders ≡ some o) (sym written.terms.id) ho)) in
    let (w, s) = after_fill-Rewrites taken final _ mid db' flying filling row run in
    (final, Rewrites-trans o taken final written w, s)

module _ (o : Order) (event : BrokerExecutionEvent) (reply : Reply) (db db' : Db) (s : IsSound o)
    (ho : find order_id o.id db.orders ≡ some o) where
  apply_fill-Effect : apply_fill o event db ≡ ok (reply, db') → Effect o db db'
  unfolding apply_fill apply_priced_fill
  apply_fill-Effect h = elim (Bool-cases (status_in o.status live_statuses)) [
    | inr closed ↦ untouched (ground arith)
    | inl live ↦ elim (Option-cases event.fill_price) [
      | inl missing ↦ untouched (ground arith)
      | inr (p, priced) ↦
          elim (Bool-cases
            (ltb 0 event.filled_quantity && leb event.filled_quantity o.remaining_quantity)) [
              | inr unfit ↦ untouched (ground arith)
              | inl fit ↦ elim (Result-cases (execute_fill o event p db)) [
                | inl (e, failed) ↦ untouched (ground arith)
                | inr ((reply', done), run) ↦
                    let (r, w, sound) =
                      execute_fill-Effect o event p reply' db done (IsSound-InFlight o s live)
                        (ground arith) (ground arith) ho run in
                    elim (Bool-cases (
                      is_full_fill event.event_type
                      && not (event.filled_quantity == o.remaining_quantity))) [
                        | inl partial ↦ untouched (ground arith)
                        | inr exact ↦
                            rewritten r
                              (record {
                                terms = w.terms;
                                progress = w.progress;
                                orders = ground (arith, w.orders);
                              })
                              (λ _. sound) (ground arith)
                      ]
              ]
            ]
    ]
  ]

  apply_rejection-Effect : apply_rejection o event db ≡ ok (reply, db') → Effect o db db'
  unfolding apply_rejection transition
  apply_rejection-Effect h = elim (Bool-cases (status_eq o.status routed)) [
    | inl at_broker ↦
        rewritten (rejected_order o (or_else event.reason "Rejected by broker"))
          (record { terms = ground arith; progress = ground arith; orders = ground arith })
          (λ _. ground arith) (ground arith)
    | inr elsewhere ↦ untouched (ground arith)
  ]

  apply_cancellation-Effect : apply_cancellation o event db ≡ ok (reply, db') → Effect o db db'
  unfolding apply_cancellation
  apply_cancellation-Effect h = elim (Bool-cases (status_in o.status live_statuses)) [
    | inl live ↦
        let (r, run) =
          >>pure-inv (cancel_remaining o _ _) (true, none) reply db db' (rw live at h) in
        let (w, sound) =
          cancel_remaining-Rewrites o r _ _ db db' (IsSound-InFlight o s live) (ground arith) run in
        rewritten r w (λ _. sound) (ground arith)
    | inr closed ↦ untouched (ground arith)
  ]

  dispatch-Effect :
      (t : BrokerEventType) → dispatch t o event db ≡ ok (reply, db') → Effect o db db'
  unfolding dispatch
  dispatch-Effect full_fill h = apply_fill-Effect h
  dispatch-Effect partial_fill h = apply_fill-Effect h
  dispatch-Effect BrokerEventType.rejected h = apply_rejection-Effect h
  dispatch-Effect BrokerEventType.cancelled h = apply_cancellation-Effect h

handle_new_event-Effect :
    (o : Order) (event : BrokerExecutionEvent) (answer : Bool) (db db' : Db)
    → IsSound o
    → find order_id o.id db.orders ≡ some o
    → handle_new_event o event db ≡ ok (answer, db')
    → Effect o db db'
unfolding handle_new_event
handle_new_event-Effect o event answer db db' s ho h =
    let (reply, mid, done, rest) = >>=-inv (dispatch event.event_type o event) _ db db' h in
    let frame = record_outcome_frame o event reply answer mid db' rest in
    Effect-after o (dispatch-Effect o event reply db mid s ho event.event_type done) frame.1

handle_event-Touches :
    (event : BrokerExecutionEvent) (answer : Bool) (db db' : Db)
    → AllSound db.orders
    → handle_event event db ≡ ok (answer, db')
    → Touches db db'
unfolding handle_event
handle_event-Touches event answer db db' all h =
    elim (Option-cases (find order_id event.order_id db.orders)) [
      | inl unknown ↦ absurd (ground arith)
      | inr (o, ho) ↦ elim (Bool-cases (is_some (lookup_event event.event_id db))) [
        | inl seen ↦ no_order (ground arith)
        | inr unseen ↦
            let row = find-key order_id event.order_id db.orders o ho in
            one_order o row (
              handle_new_event-Effect o event answer db db' (all event.order_id o ho) row
                (ground arith))
      ]
    ]

-- Every broker event keeps every stored order sound.
pub process_event-AllSound :
    (event : BrokerExecutionEvent) (db : Db)
    → AllSound db.orders
    → AllSound (process_event event db).1.orders
unfolding process_event
process_event-AllSound event db all =
    begin_keeps (λ d. AllSound d.orders) (handle_event event) db all
      (λ answer db' run. Touches-AllSound (handle_event-Touches event answer db db' all run) all)

pub process_event-Evolves :
    (event : BrokerExecutionEvent) (db : Db)
    → AllSound db.orders
    → Evolves db (process_event event db).1
unfolding process_event
process_event-Evolves event db all =
    begin_keeps (Evolves db) (handle_event event) db (Evolves-same db db refl)
      (λ answer db' run. Touches-Evolves (handle_event-Touches event answer db db' all run))
