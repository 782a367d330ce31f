-- ===== src/Services/OrderService/Trail.antt =====
-- What a creation and a failure of its routing write to the audit trail.
use Prim.Native.String.{◌++◌ as str_append}
use order_management_system.Prelude.{
  ℕ, ◌≡◌, refl, ap, String, Bool, true, none, some, List, [], ◌∷◌, ◌++◌, inl, inr, arith, nat_eq,
  if◌then◌else◌,
}
use order_management_system.Prelude.Int.{ltb_ℤ, pos}
use order_management_system.Prelude.Table.{find-key}
use order_management_system.Domain.Enums.{
  OrderStatus, new, validated, routed, status_eq, order_created, order_validated, order_routed,
  order_rejected, validation_failed,
}
use order_management_system.Domain.StateMachine.{ensure_transition_allowed}
use order_management_system.Domain.Errors.{ok}
use order_management_system.Models.{
  Db, Order, OrderEvent, Account, OrderCreate, DataValue, available_cash,
}
use order_management_system.Persistence.Session.{begin, begin_keeps}
use order_management_system.Services.Lifecycle.{transition}
use order_management_system.Accounting.{order_id}
use order_management_system.Journal.{append_assoc, append-nil, IsJournal, IsJournal-same}
use order_management_system.Journal.Changes.{Journals, Journals-IsJournal}
use order_management_system.Journal.Places.{Places, Places-IsJournal}
use order_management_system.Services.ExecutionService.Logging.{entry}
use order_management_system.Services.OrderService.Placement.{
  required, place_order-fresh, place_order-row, place_order-orders,
}
use order_management_system.Services.OrderService.Cash.{
  creation_block-cases, routing_failure_block-cases, failed_row,
}
use order_management_system.Services.OrderService.{
  Surroundings, initial_order, place_order, reject_order, route_order, reserve, creation_block,
  release_routing, fail_routing, routing_failure_block, mark_routing_failure,
}

-- The first entry of a trail, and what follows it at once.
abbrev created_entry : Surroundings → OrderCreate → OrderEvent
created_entry env payload = record {
  order_id = env.order_id;
  event_type = order_created;
  previous_status = none;
  new_status = some new;
  event_data =
      ("client_order_id", DataValue.text payload.client_order_id)
      ∷ ("symbol", DataValue.text payload.symbol)
      ∷ ("quantity", DataValue.decimal payload.quantity)
      ∷ [];
}

abbrev placed_entries : Surroundings → OrderCreate → Account → List OrderEvent
placed_entries env payload a =
    if ltb_ℤ (available_cash a) (pos (required payload))
    then entry env.order_id validation_failed new OrderStatus.rejected
        (("reason", DataValue.text "Insufficient buying power") ∷ [])
      ∷ []
    else entry env.order_id order_validated new validated []
      ∷ entry env.order_id order_routed validated routed []
      ∷ []

module _ (env : Surroundings) (payload : OrderCreate) (a : Account) (r : Order)
    (should_route : Bool) (db db' : Db)
    (h : place_order env payload a db ≡ ok ((r, should_route), db')) where
  place_order-events :
      db'.order_events ≡ db.order_events ++ created_entry env payload ∷ placed_entries env payload a
  unfolding place_order reject_order route_order transition ensure_transition_allowed initial_order
      reserve
  place_order-events =
      let first : OrderEvent = created_entry env payload in
      let refused =
        entry env.order_id validation_failed new OrderStatus.rejected
          (("reason", DataValue.text "Insufficient buying power") ∷ []) in
      let accepted = entry env.order_id order_validated new validated [] in
      let sent = entry env.order_id order_routed validated routed [] in
      ground (
        arith,
        append_assoc db.order_events (first ∷ []) (refused ∷ []),
        append_assoc db.order_events (first ∷ []) (accepted ∷ []),
        append_assoc db.order_events (first ∷ accepted ∷ []) (sent ∷ []),
      )

  place_order-fills : db'.fills ≡ db.fills
  unfolding place_order reject_order route_order transition ensure_transition_allowed initial_order
      reserve
  place_order-fills = ground arith

  place_order-processed : db'.processed_events ≡ db.processed_events
  unfolding place_order reject_order route_order transition ensure_transition_allowed initial_order
      reserve
  place_order-processed = ground arith

  place_order-Places : Places r (created_entry env payload) (placed_entries env payload a) db db'
  unfolding initial_order
  place_order-Places =
      let row = place_order-row env payload a r should_route db db' h in
      record {
        orders = place_order-orders env payload a r should_route db db' h;
        events = place_order-events;
        fills = place_order-fills;
        fresh = ground (arith, (place_order-fresh env payload a r should_route db db' h).0);
        of_order = ground arith;
        created = (refl, refl);
        walk = ground arith;
        unfilled = ground arith;
      }

-- A creation keeps the audit trail and the fills in agreement with the orders.
pub creation-IsJournal :
    (env : Surroundings) (payload : OrderCreate) (db : Db)
    → IsJournal db
    → IsJournal (begin (creation_block env payload) db).1
creation-IsJournal env payload db v =
    begin_keeps IsJournal (creation_block env payload) db v λ (r, should_route) db' run.
      elim (creation_block-cases env payload r should_route db db' run) [
        | inl same ↦
            IsJournal-same db db' (ap (λ (d : Db). d.orders) same)
              (ap (λ (d : Db). d.order_events) same) (ap (λ (d : Db). d.fills) same) v
        | inr (a, found, placed) ↦
            Places-IsJournal r _ _ db db'
              (place_order-Places env payload a r should_route db db' placed) v
      ]

fail_routing-Journals :
    (o : Order) (reason : String) (db db' : Db)
    → status_eq o.status routed ≡ true
    → fail_routing o reason db ≡ ok (tt, db')
    → Journals o
        (failed_row o reason)
        (entry o.id order_rejected o.status OrderStatus.rejected
            (("reason", DataValue.text (str_append "Broker routing failed: " reason)) ∷ [])
          ∷ [])
        []
        db
        db'
unfolding fail_routing release_routing transition ensure_transition_allowed
fail_routing-Journals o reason db db' at_broker h = record {
  orders = ground arith;
  events = ground arith;
  fills = ground (arith, append-nil db.fills);
  same_id = refl;
  walk = ground arith;
  filled = omega arith;
  own = λ k other. refl;
}

-- A failure of the routing keeps the audit trail and the fills in agreement with the orders.
pub mark_routing_failure-IsJournal :
    (id : ℕ) (reason : String) (db : Db)
    → IsJournal db
    → IsJournal (mark_routing_failure id reason db).1
unfolding mark_routing_failure
mark_routing_failure-IsJournal id reason db v =
    begin_keeps IsJournal (routing_failure_block id reason) db v λ u db' run.
      elim (routing_failure_block-cases id reason db db' run) [
        | inl same ↦
            IsJournal-same db db' (ap (λ (d : Db). d.orders) same)
              (ap (λ (d : Db). d.order_events) same) (ap (λ (d : Db). d.fills) same) v
        | inr (o, ho, at_broker, failed) ↦
            Journals-IsJournal o _ _ [] db db'
              (fail_routing-Journals o reason db db' at_broker failed)
              (find-key order_id id db.orders o ho) v
      ]

pub creation-processed :
    (env : Surroundings) (payload : OrderCreate) (db : Db)
    → (begin (creation_block env payload) db).1.processed_events ≡ db.processed_events
creation-processed env payload db =
    begin_keeps (λ d. d.processed_events ≡ db.processed_events) (creation_block env payload) db refl
      λ (r, should_route) db' run.
        elim (creation_block-cases env payload r should_route db db' run) [
          | inl same ↦ ap (λ (d : Db). d.processed_events) same
          | inr (a, found, placed) ↦
              place_order-processed env payload a r should_route db db' placed
        ]

pub mark_routing_failure-processed :
    (id : ℕ) (reason : String) (db : Db)
    → (mark_routing_failure id reason db).1.processed_events ≡ db.processed_events
unfolding mark_routing_failure routing_failure_block fail_routing release_routing transition
mark_routing_failure-processed id reason db = ground arith
