-- ===== src/Services/ExecutionService/Logging.antt =====
-- What the parts of a broker event add to the audit trail and to the fills.
use order_management_system.Prelude.{
  ℕ, ◌≡◌, refl, String, true, none, some, List, [], ◌∷◌, ◌++◌, arith, ◌==◌, inl, inr, Bool-cases,
  nat_eq, subst, sym,
}
use order_management_system.Prelude.Table.{find, replace_self, find-replace_self}
use order_management_system.Domain.Enums.{
  OrderStatus, OrderEventType, status_eq, filled, routed, partially_filled, tif_index, ioc,
  full_fill_received, partial_fill_received,
}
use order_management_system.Domain.StateMachine.{ensure_transition_allowed}
use order_management_system.Domain.Errors.{ok}
use order_management_system.Models.{Db, Order, OrderEvent, Fill, DataValue, BrokerExecutionEvent}
use order_management_system.Persistence.Session.{>>=-inv, >>pure-inv}
use order_management_system.Services.Lifecycle.{transition}
use order_management_system.Services.PositionService.{apply_execution}
use order_management_system.Accounting.{order_id}
use order_management_system.Journal.{append-nil}
use order_management_system.Journal.Changes.{Journals, Journals-trans}
use order_management_system.Services.ExecutionService.{
  Reply, new_fill, cancel_ioc_remainder, cancel_remaining, fill_order, after_fill, book_fill,
  execute_fill,
}

-- A block has written the order anew, with some entries and fills.
abbrev pub Logs : Order → Db → Db → Type 0
Logs o db db' = (r : Order) × (es : List OrderEvent) × (fs : List Fill) × Journals o r es fs db db'

abbrev pub entry :
    ℕ → OrderEventType → OrderStatus → OrderStatus → List (String × DataValue) → OrderEvent
entry id event_type previous next event_data = record {
  order_id = id;
  event_type = event_type;
  previous_status = some previous;
  new_status = some next;
  event_data = event_data;
}

pub transition-Journals :
    (o r : Order) (t : OrderStatus) (e : OrderEventType) (d : List (String × DataValue))
    (db db' : Db)
    → transition o t e d db ≡ ok (r, db')
    → Journals o r (entry o.id e o.status t d ∷ []) [] db db'
unfolding transition ensure_transition_allowed
transition-Journals o r t e d db db' h = record {
  orders = ground arith;
  events = ground arith;
  fills = ground (arith, append-nil db.fills);
  same_id = ground arith;
  walk = ground arith;
  filled = ground arith;
  own = λ k other. refl;
}

pub cancel_remaining-Logs :
    (o r : Order) (reason : String) (d : List (String × DataValue)) (db db' : Db)
    → cancel_remaining o reason d db ≡ ok (r, db')
    → Logs o db db' × (r.id ≡ o.id)
unfolding cancel_remaining transition ensure_transition_allowed
cancel_remaining-Logs o r reason d db db' h = (
  (
    r,
    entry o.id OrderEventType.order_cancelled o.status OrderStatus.cancelled (
          d
          ++ ("cancelled_quantity", DataValue.decimal o.remaining_quantity)
            ∷ ("reason", DataValue.text reason)
            ∷ [])
        ∷ [],
    [],
    record {
      orders = ground arith;
      events = ground arith;
      fills = ground (arith, append-nil db.fills);
      same_id = ground arith;
      walk = ground arith;
      filled = ground arith;
      own = λ k other. refl;
    },
  ),
  ground arith,
)

book_fill-Journals :
    (o r : Order) (event : BrokerExecutionEvent) (p : ℕ) (db db' : Db)
    → book_fill o event p db ≡ ok (r, db')
    → Journals o r [] (new_fill o event p ∷ []) db db'
unfolding book_fill fill_order apply_execution new_fill
book_fill-Journals o r event p db db' h = record {
  orders = ground arith;
  events = ground (arith, append-nil db.order_events);
  fills = ground arith;
  same_id = ground arith;
  walk = ground arith;
  filled = ground arith;
  own = λ k other. ground arith;
}

-- An entry that leaves the status alone.
noted-Journals :
    (o : Order) (e : OrderEventType) (d : List (String × DataValue)) (db db' : Db)
    → find order_id o.id db.orders ≡ some o
    → db' ≡ record db { order_events = db.order_events ++ entry o.id e o.status o.status d ∷ [] }
    → Journals o o (entry o.id e o.status o.status d ∷ []) [] db db'
noted-Journals o e d db db' ho h = record {
  orders = ground (arith, replace_self order_id db.orders o ho);
  events = ground arith;
  fills = ground (arith, append-nil db.fills);
  same_id = refl;
  walk = (refl, (refl, inl refl), refl);
  filled = omega arith;
  own = λ k other. refl;
}

-- A block has run whose first half wrote the order as `b`, and whose second half went on from there.
Logs-trans :
    (a b : Order) (es : List OrderEvent) (fs : List Fill) (db mid db' : Db)
    → Journals a b es fs db mid
    → Logs b mid db'
    → Logs a db db'
Logs-trans a b es fs db mid db' v (c, es', fs', w) =
    (c, es ++ es', fs ++ fs', Journals-trans a b c es es' fs fs' v w)

module _ (o r : Order) (d : List (String × DataValue)) (db db' : Db)
    (ho : find order_id o.id db.orders ≡ some o) where
  cancel_ioc_remainder-Logs : cancel_ioc_remainder o d db ≡ ok (r, db') → Logs o db db'
  unfolding cancel_ioc_remainder
  cancel_ioc_remainder-Logs h =
      let mid : Db = record db {
        order_events = db.order_events ++ entry o.id partial_fill_received o.status o.status d ∷ [];
      } in
      Logs-trans o o _ [] db mid db' (noted-Journals o partial_fill_received d db mid ho refl)
        (cancel_remaining-Logs o r "IOC remainder cancelled" d mid db' h).0

  after_fill-Logs : after_fill o d db ≡ ok (r, db') → Logs o db db'
  unfolding after_fill
  after_fill-Logs h = elim (Bool-cases (o.remaining_quantity == 0)) [
    | inl done ↦
        (r, _, _, transition-Journals o r filled full_fill_received d db db' (ground arith))
    | inr more ↦ elim (Bool-cases (tif_index o.time_in_force == tif_index ioc)) [
      | inl immediate ↦ cancel_ioc_remainder-Logs (ground arith)
      | inr resting ↦ elim (Bool-cases (status_eq o.status routed)) [
        | inl first ↦ (
          r,
          _,
          _,
          transition-Journals o r partially_filled partial_fill_received d db db' (ground arith),
        )
        | inr later ↦ (o, _, _, noted-Journals o partial_fill_received d db db' ho (ground arith))
      ]
    ]
  ]

pub execute_fill-Logs :
    (o : Order) (event : BrokerExecutionEvent) (p : ℕ) (reply : Reply) (db db' : Db)
    → find order_id o.id db.orders ≡ some o
    → execute_fill o event p db ≡ ok (reply, db')
    → Logs o db db'
unfolding execute_fill
execute_fill-Logs o event p reply db db' ho h =
    let (taken, mid, booked, rest) = >>=-inv (book_fill o event p) _ db db' h in
    let written = book_fill-Journals o taken event p db mid booked in
    let (final, run) = >>pure-inv (after_fill taken _) (true, none) reply mid db' rest in
    let row : find order_id taken.id mid.orders ≡ some taken = rw written.orders (
      find-replace_self order_id taken db.orders o
        (subst (λ k. find order_id k db.orders ≡ some o) (sym written.same_id) ho)) in
    Logs-trans o taken [] (new_fill o event p ∷ []) db mid db' written
      (after_fill-Logs taken final _ mid db' row run)

pub execute_fill-reply :
    (o : Order) (event : BrokerExecutionEvent) (p : ℕ) (reply : Reply) (db db' : Db)
    → execute_fill o event p db ≡ ok (reply, db')
    → reply ≡ (true, none)
unfolding execute_fill
execute_fill-reply o event p reply db db' h = ground arith
