-- ===== src/Workers.antt =====
-- app/broker/worker.py: one round of each background worker. An exception is logged, and the worker
-- goes on; the queue is the list of the events that wait in it.
pub mod Expiry
use order_management_system.Prelude.{ℕ, String, List, [], ◌∷◌}
use order_management_system.Models.{Db, BrokerExecutionEvent}
use order_management_system.Persistence.Queries.{list_expired_day_order_ids}
use order_management_system.Services.ExecutionService.{process_event}
use order_management_system.Services.CancellationService.{request_cancellation}

-- `broker_event_worker`, until its queue is empty.
unfoldable pub broker_event_worker : List BrokerExecutionEvent → Db → Db
broker_event_worker [] db = db
broker_event_worker (event ∷ queue) db = broker_event_worker queue (process_event event db).1

abbrev pub expiry_reason : String
expiry_reason = "DAY order expired at session end"

-- The loop over the expired orders.
unfoldable pub expire_orders : List ℕ → Db → Db
expire_orders [] db = db
expire_orders (id ∷ ids) db = expire_orders ids (request_cancellation id expiry_reason db).1

-- The default `limit` of the query.
abbrev pub expiry_limit : ℕ
expiry_limit = 100

-- One scan of `day_order_expiry_worker`.
unfoldable pub expiry_scan : ℕ → Db → Db
expiry_scan now db = expire_orders (list_expired_day_order_ids now expiry_limit db) db
