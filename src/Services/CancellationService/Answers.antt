-- ===== src/Services/CancellationService/Answers.antt =====
-- How a request for cancellation is answered.
use Prim.Native.String.{◌++◌ as str_append}
use order_management_system.Prelude.{
  ℕ, ◌≡◌, String, Bool, true, false, Option, none, some, refl, ◌==◌, ◌&&◌, ◌+◌, inl, inr, arith,
  Option-cases, nat_eq, if◌then◌else◌,
}
use order_management_system.Prelude.Table.{find, find-key, key-find, find-replace}
use order_management_system.Domain.Enums.{cancel_pending, status_eq, status_in, status_value}
use order_management_system.Domain.StateMachine.{
  cancellable_order_statuses, ensure_transition_allowed,
}
use order_management_system.Domain.Errors.{
  Result, ok, err, order_not_found, invalid_cancellation, broker_error,
}
use order_management_system.Models.{Db, Order}
use order_management_system.Persistence.Session.{begin}
use order_management_system.Services.Lifecycle.{transition}
use order_management_system.Services.CancellationService.{
  request_of, cancellation_block, request_cancellation, notify_broker, request_and_notify,
}
use order_management_system.Services.CancellationService.Cash.{pending_order}
use order_management_system.Accounting.{order_id}
use order_management_system.Soundness.{AllSound, IsSound}

-- What the block answers for an order that is stored: the order, and whether the broker is told.
abbrev answer_of : Order → Result (Order × Bool)
answer_of o =
    if status_eq o.status cancel_pending
    then ok (o, false)
    else if status_in o.status cancellable_order_statuses
    then ok (pending_order o, true)
    else err (
        invalid_cancellation (str_append "Order cannot be cancelled from " (status_value o.status)))

request_of-ok :
    (o : Order) (reason : String) (db : Db)
    → IsSound o
    → (begin (request_of o reason) db).0 ≡ answer_of o
unfolding request_of transition ensure_transition_allowed
request_of-ok o reason db s = ground arith

block_answer :
    (id : ℕ) (reason : String) (db : Db) (o : Order)
    → AllSound db.orders
    → find order_id id db.orders ≡ some o
    → (request_cancellation id reason db).0 ≡ answer_of o
unfolding request_cancellation cancellation_block
block_answer id reason db o all ho = ground (arith, request_of-ok o reason db (all id o ho))

pub unknown_refused :
    (id : ℕ) (reason : String) (outage : Option String) (db : Db)
    → find order_id id db.orders ≡ none
    → request_and_notify id reason outage db ≡ (err (order_not_found id), db)
unfolding request_and_notify notify_broker request_cancellation cancellation_block
unknown_refused id reason outage db unknown = ground arith

notify_broker-db :
    (outage : Option String) (r : Result (Order × Bool)) (db : Db)
    → (notify_broker outage (r, db)).1 ≡ db
unfolding notify_broker
notify_broker-db outage (err e) db = refl
notify_broker-db outage (ok (o, false)) db = refl
notify_broker-db none (ok (o, true)) db = refl
notify_broker-db (some message) (ok (o, true)) db = refl

-- A request for cancellation of one order, seen at any order.
pub after_request :
    (id k : ℕ) (reason : String) (db : Db) (o : Order)
    → AllSound db.orders
    → find order_id k db.orders ≡ some o
    → find order_id k (request_cancellation id reason db).1.orders
      ≡ some
          (if id == k && status_in o.status cancellable_order_statuses then pending_order o else o)
unfolding request_cancellation cancellation_block request_of transition ensure_transition_allowed
after_request id k reason db o all h = elim (Option-cases (find order_id id db.orders)) [
  | inl unknown ↦ ground arith
  | inr (p, hp) ↦
      let sound : IsSound p = all id p hp in
      ground (
        arith,
        key-find order_id id db.orders p hp,
        find-replace order_id k (pending_order p) db.orders p (find-key order_id id db.orders p hp),
      )
]

-- What the client gets for an order that is stored, with the broker up or not.
abbrev pub expected_answer : Option String → Order → Result Order
expected_answer outage o =
    if status_eq o.status cancel_pending
    then ok o
    else if status_in o.status cancellable_order_statuses
    then elim outage [ none ↦ ok (pending_order o) | some message ↦ err (broker_error message) ]
    else err (
        invalid_cancellation (str_append "Order cannot be cancelled from " (status_value o.status)))

notified_answer :
    (id : ℕ) (reason : String) (outage : Option String) (db : Db) (o : Order)
    → AllSound db.orders
    → find order_id id db.orders ≡ some o
    → (request_and_notify id reason outage db).0 ≡ expected_answer outage o
unfolding request_and_notify notify_broker
notified_answer id reason none db o all ho = ground (arith, block_answer id reason db o all ho)
notified_answer id reason (some message) db o all ho =
    ground (arith, block_answer id reason db o all ho)

-- Among sound orders a request for the cancellation of an order that is stored is answered as its
-- status says: with the order, if it is open or pending, and by a refusal if it is terminal; if it is
-- open and the broker raises an exception, by that exception. In every case, with the broker up or
-- not, an open order is stored as pending afterwards, and every other order as it was.
pub request_cancellation_answer :
    (id : ℕ) (reason : String) (outage : Option String) (db : Db) (o : Order)
    → AllSound db.orders
    → find order_id id db.orders ≡ some o
    → ((request_and_notify id reason outage db).0 ≡ expected_answer outage o)
      × ((k : ℕ) (x : Order)
          → find order_id k db.orders ≡ some x
          → find order_id k (request_and_notify id reason outage db).1.orders
            ≡ some (
                if id == k && status_in x.status cancellable_order_statuses
                then record x { status = cancel_pending; version = x.version + 1 }
                else x))
unfolding request_and_notify
request_cancellation_answer id reason outage db o all ho = (
  notified_answer id reason outage db o all ho,
  λ k x hx.
      rw
        (notify_broker-db outage (request_cancellation id reason db).0
          (request_cancellation id reason db).1)
        (after_request id k reason db x all hx),
)
