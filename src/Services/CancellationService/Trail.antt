-- ===== src/Services/CancellationService/Trail.antt =====
-- What a request for cancellation writes to the audit trail.
use order_management_system.Prelude.{
  ℕ, ◌≡◌, refl, String, Bool, false, some, [], ◌∷◌, inl, inr, arith, Option-cases, Bool-cases,
  nat_eq,
}
use order_management_system.Prelude.Table.{find, find-key}
use order_management_system.Domain.Enums.{cancel_pending, cancel_requested, status_eq}
use order_management_system.Domain.StateMachine.{ensure_transition_allowed}
use order_management_system.Domain.Errors.{ok}
use order_management_system.Models.{Db, Order, DataValue}
use order_management_system.Persistence.Session.{begin_keeps}
use order_management_system.Services.Lifecycle.{transition}
use order_management_system.Accounting.{order_id}
use order_management_system.Journal.{append-nil, IsJournal, IsJournal-same}
use order_management_system.Journal.Changes.{Journals, Journals-IsJournal}
use order_management_system.Services.ExecutionService.Logging.{entry}
use order_management_system.Services.CancellationService.{
  request_of, cancellation_block, request_cancellation,
}
use order_management_system.Services.CancellationService.Cash.{pending_order}

module _ (o r : Order) (reason : String) (notify : Bool) (db db' : Db)
    (h : request_of o reason db ≡ ok ((r, notify), db')) where
  request_of-Journals :
      status_eq o.status cancel_pending ≡ false
      → Journals o
          (pending_order o)
          (entry o.id cancel_requested o.status cancel_pending
              (("reason", DataValue.text reason) ∷ [])
            ∷ [])
          []
          db
          db'
  unfolding request_of transition ensure_transition_allowed
  request_of-Journals other = record {
    orders = ground arith;
    events = ground arith;
    fills = ground (arith, append-nil db.fills);
    same_id = refl;
    walk = ground arith;
    filled = omega arith;
    own = λ k other. refl;
  }

  request_of-IsJournal : find order_id o.id db.orders ≡ some o → IsJournal db → IsJournal db'
  request_of-IsJournal ho v = elim (Bool-cases (status_eq o.status cancel_pending)) [
    | inl pending ↦
        unfold request_of in IsJournal-same db db' (ground arith) (ground arith) (ground arith) v
    | inr other ↦
        Journals-IsJournal o (pending_order o) _ [] db db' (request_of-Journals other) ho v
  ]

-- A request for cancellation keeps the audit trail and the fills in agreement with the orders.
pub request_cancellation-IsJournal :
    (id : ℕ) (reason : String) (db : Db)
    → IsJournal db
    → IsJournal (request_cancellation id reason db).1
unfolding request_cancellation cancellation_block
request_cancellation-IsJournal id reason db v =
    begin_keeps IsJournal (cancellation_block id reason) db v λ (r, notify) db' run.
      elim (Option-cases (find order_id id db.orders)) [
        | inl unknown ↦ absurd (ground arith)
        | inr (o, ho) ↦
            request_of-IsJournal o r reason notify db db' (ground arith)
              (find-key order_id id db.orders o ho) v
      ]

pub request_cancellation-processed :
    (id : ℕ) (reason : String) (db : Db)
    → (request_cancellation id reason db).1.processed_events ≡ db.processed_events
unfolding request_cancellation cancellation_block request_of transition
request_cancellation-processed id reason db = ground arith
