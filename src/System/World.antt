-- ===== src/System/World.antt =====
-- The database and the simulated broker together: the services hand orders and cancellations to the
-- broker, its tasks put events on the queue, and the worker of app/broker/worker.py takes them.
pub mod Events
pub mod Known
use order_management_system.Prelude.{
  ℕ, ◌≡◌, refl, sym, ap, ◌∙◌, subst, String, true, Option, none, some, List, [], ◌∷◌, ◌++◌, arith,
  nat_eq, inl, inr, Option-cases, ◌==◌, Bool-cases, ◌-◌, ltb, ◌&&◌, false,
}
use order_management_system.Prelude.Table.{find, replace, find-append_self}
use order_management_system.Domain.Enums.{tif_index, ioc}
use order_management_system.Domain.Errors.{Result, ok, err}
use order_management_system.Models.{Db, Order, OrderCreate, BrokerExecutionEvent}
use order_management_system.Persistence.Session.{begin}
use order_management_system.Services.OrderService.{Surroundings, creation_block}
use order_management_system.Services.CancellationService.{request_cancellation}
use order_management_system.Services.ExecutionService.{process_event}
use order_management_system.Accounting.{order_id}
use order_management_system.Soundness.Evolution.{Evolves}
use order_management_system.Broker.{
  BrokerOrder, broker_order, Draws, Drawn, draw_full, draw_partial, draw_rejected, simulate_order,
  simulate_outcome, follow_up, full_fill_event, partial_fill_event, rejection_event,
  simulate_cancellation, partial_quantity,
}
use order_management_system.Broker.Tasks.{
  FakeBroker, Task, fresh_broker, start_task, submit_order, cancel_task, put_next, on_task_done,
  discard, close, take_event,
}
use order_management_system.System.{
  Step, create, request_cancel, broker_event, Step-Evolves, Step-IsConsistent, IsConsistent, empty,
  empty-IsConsistent,
}

pub record World : Type 0 where
  pub db : Db
  pub broker : FakeBroker

abbrev pub genesis : World
genesis = record { db = empty; broker = fresh_broker }

-- What may happen next: any block on its own; a creation or a request for cancellation with the call of
-- the broker after its commit; or a move of a task, of the worker, or the end of the broker.
pub data Happens (w : World) : World → Type 0 where
  block : {db' : Db} → Step w.db db' → Happens w (record { db = db'; broker = w.broker })
  submits :
      {db' : Db} (env : Surroundings) (payload : OrderCreate) (order : Order) (draws : Draws)
      → begin (creation_block env payload) w.db ≡ (ok (order, true), db')
      → Happens w (record { db = db'; broker = submit_order (broker_order order) draws w.broker })
  asks :
      {db' : Db} (id : ℕ) (reason : String) (order : Order) (event_id timestamp : ℕ)
      → request_cancellation id reason w.db ≡ (ok (order, true), db')
      → Happens w
          (record { db = db'; broker = cancel_task order.id reason event_id timestamp w.broker })
  puts : (id : ℕ) → Happens w (record { db = w.db; broker = put_next id w.broker })
  ends : (id : ℕ) → Happens w (record { db = w.db; broker = on_task_done id w.broker })
  works :
      {b : FakeBroker} (event : BrokerExecutionEvent)
      → take_event w.broker ≡ some (event, b)
      → Happens w (record { db = (process_event event w.db).1; broker = b })
  closes : Happens w (record { db = w.db; broker = close w.broker })

pub data Comes (w : World) : World → Type 0 where
  now : Comes w w
  later : {u v : World} → Comes w u → Happens u v → Comes w v
