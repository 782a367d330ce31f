-- ===== src/Persistence/Events.antt =====
-- app/repositories/broker_event_repository.py
use order_management_system.Prelude.{ℕ, Option, [], ◌∷◌, ◌++◌, not, nat_eq}
use order_management_system.Prelude.Table.{find, is_some}
use order_management_system.Models.{Db, ProcessedBrokerEvent}
use order_management_system.Persistence.Session.{Tx, gets, modify, check, ◌>>=◌, ◌>>◌}

abbrev pub lookup_event : ℕ → Db → Option ProcessedBrokerEvent
lookup_event event_id db =
    find (λ (e : ProcessedBrokerEvent). e.broker_event_id) event_id db.processed_events

abbrev pub add : ProcessedBrokerEvent → Tx (Unit {0})
add event = do
  same_event ← gets (lookup_event event.broker_event_id)
  check (not (is_some same_event))
  modify (λ db. record db { processed_events = db.processed_events ++ event ∷ [] })
