-- ===== src/System.antt =====
-- The system as a whole: the blocks that requests, broker events and the background workers run, in
-- any order that the row locks allow, from an empty database.
pub mod Exact
pub mod Keys
pub mod Redelivery
pub mod Shown
pub mod Repeats
pub mod Trail
pub mod World
use order_management_system.Prelude.{subst, sym, ℕ, ◌≤◌, String, [], refl, nat_eq}
use order_management_system.Prelude.Table.{sum_of}
use order_management_system.Models.{Db, Account, OrderCreate, BrokerExecutionEvent}
use order_management_system.Persistence.Session.{begin}
use order_management_system.Services.ExecutionService.{process_event}
use order_management_system.Services.ExecutionService.Cash.{process_event-Backed}
use order_management_system.Services.ExecutionService.Rows.{
  process_event-AllSound, process_event-Evolves,
}
use order_management_system.Services.AccountService.{AccountCreate, create_account}
use order_management_system.Services.AccountService.Cash.{
  create_account-IsJournal, create_account-Backed, create_account-AllSound, create_account-Evolves,
}
use order_management_system.Soundness.Evolution.{Evolves, Evolves-same, Evolves-trans}
use order_management_system.Services.CancellationService.{request_cancellation}
use order_management_system.Services.CancellationService.Cash.{
  request_cancellation-Backed, request_cancellation-AllSound, request_cancellation-Evolves,
}
use order_management_system.Services.OrderService.{
  Surroundings, creation_block, mark_routing_failure,
}
use order_management_system.Services.OrderService.Cash.{
  creation-Backed, creation-AllSound, mark_routing_failure-Backed, mark_routing_failure-AllSound,
  creation-Evolves, mark_routing_failure-Evolves,
}
use order_management_system.Services.MarketDataService.{apply_tick}
use order_management_system.Services.MarketDataService.Marks.{apply_tick-frame}
use order_management_system.Services.ExecutionService.Trail.{process_event-IsJournal}
use order_management_system.Services.OrderService.Trail.{
  creation-IsJournal, mark_routing_failure-IsJournal,
}
use order_management_system.Services.CancellationService.Trail.{request_cancellation-IsJournal}
use order_management_system.References.{IsReferenced, IsReferenced-IsClosed, nothing-IsReferenced}
use order_management_system.References.Blocks.{
  mark_routing_failure_keeps, request_cancellation_keeps,
}
use order_management_system.References.Execution.{process_event-IsReferenced}
use order_management_system.References.Placement.{
  creation-IsReferenced, create_account-IsReferenced, apply_tick-IsReferenced,
}
use order_management_system.Journal.{IsJournal, IsJournal-same}
use order_management_system.Keys.{nothing-IsKeyed}
use order_management_system.Accounting.{Backed-frame, account_id, held_for, Backed}
use order_management_system.Soundness.{AllSound}

-- The two blocks of a creation are two steps: what other clients do may come in between.
pub data Step (db : Db) : Db → Type 0 where
  open_account : (id : ℕ) (payload : AccountCreate) → Step db (create_account id payload db).1
  create :
      (env : Surroundings) (payload : OrderCreate)
      → Step db (begin (creation_block env payload) db).1
  fail_route : (id : ℕ) (reason : String) → Step db (mark_routing_failure id reason db).1
  request_cancel : (id : ℕ) (reason : String) → Step db (request_cancellation id reason db).1
  tick :
      (upper : String → String) (symbol : String) (price observed_at : ℕ)
      → Step db (apply_tick upper symbol price observed_at db).1
  broker_event : (event : BrokerExecutionEvent) → Step db (process_event event db).1

pub data Reach (db : Db) : Db → Type 0 where
  here : Reach db db
  next : {mid db' : Db} → Reach db mid → Step mid db' → Reach db db'

abbrev pub empty : Db
empty = record {
  accounts = [];
  orders = [];
  fills = [];
  order_events = [];
  positions = [];
  market_prices = [];
  processed_events = [];
}

-- What holds between any two blocks.
pub record IsConsistent (db : Db) : Type 0 where
  pub backed : Backed db
  pub sound : AllSound db.orders
  pub journal : IsJournal db
  pub referenced : IsReferenced db

-- Every block keeps the database consistent.
pub Step-IsConsistent : {db db' : Db} → Step db db' → IsConsistent db → IsConsistent db'
Step-IsConsistent {db} (open_account id payload) c = record {
  backed = create_account-Backed id payload db c.backed;
  sound = create_account-AllSound id payload db c.sound;
  journal = create_account-IsJournal id payload db c.journal;
  referenced = create_account-IsReferenced id payload db c.referenced;
}
Step-IsConsistent {db} (create env payload) c = record {
  backed = creation-Backed env payload db c.backed;
  sound = creation-AllSound env payload db c.sound;
  journal = creation-IsJournal env payload db c.journal;
  referenced = creation-IsReferenced env payload db c.referenced;
}
Step-IsConsistent {db} (fail_route id reason) c = record {
  backed = mark_routing_failure-Backed id reason db c.backed;
  sound = mark_routing_failure-AllSound id reason db c.sound;
  journal = mark_routing_failure-IsJournal id reason db c.journal;
  referenced =
      mark_routing_failure_keeps IsReferenced IsReferenced-IsClosed id reason db c.referenced;
}
Step-IsConsistent {db} (request_cancel id reason) c = record {
  backed = request_cancellation-Backed id reason db c.sound c.backed;
  sound = request_cancellation-AllSound id reason db c.sound;
  journal = request_cancellation-IsJournal id reason db c.journal;
  referenced =
      request_cancellation_keeps IsReferenced IsReferenced-IsClosed id reason db c.referenced;
}
Step-IsConsistent {db} (tick upper symbol price observed_at) c =
    let (accounts, orders, events, fills, processed) =
      apply_tick-frame upper symbol price observed_at db in
    record {
      backed =
          Backed-frame db (apply_tick upper symbol price observed_at db).1 accounts orders c.backed;
      sound = subst AllSound (sym orders) c.sound;
      journal =
          IsJournal-same db (apply_tick upper symbol price observed_at db).1 orders events fills
            c.journal;
      referenced = apply_tick-IsReferenced upper symbol price observed_at db c.referenced;
    }
Step-IsConsistent {db} (broker_event event) c = record {
  backed = process_event-Backed event db c.backed;
  sound = process_event-AllSound event db c.sound;
  journal = process_event-IsJournal event db c.journal;
  referenced = process_event-IsReferenced event db c.backed.keyed c.referenced;
}

pub Reach-IsConsistent : {db db' : Db} → IsConsistent db → Reach db db' → IsConsistent db'
Reach-IsConsistent c here = c
Reach-IsConsistent c (next r s) = Step-IsConsistent s (Reach-IsConsistent c r)

pub empty-IsConsistent : IsConsistent empty
empty-IsConsistent = record {
  backed = record {
    reserved = λ id a h. cc;
    solvent = λ id a h. cc;
    unowned = λ id h. refl;
    keyed = nothing-IsKeyed;
  };
  sound = λ id o h. cc;
  journal = record { trail = λ id o h. cc; ledger = λ id o h. cc; unknown = λ id h. (refl, refl) };
  referenced = nothing-IsReferenced;
}

Step-Evolves : {db db' : Db} → Step db db' → AllSound db.orders → Evolves db db'
Step-Evolves {db} (open_account id payload) all = create_account-Evolves id payload db
Step-Evolves {db} (create env payload) all = creation-Evolves env payload db
Step-Evolves {db} (fail_route id reason) all = mark_routing_failure-Evolves id reason db
Step-Evolves {db} (request_cancel id reason) all = request_cancellation-Evolves id reason db all
Step-Evolves {db} (tick upper symbol price observed_at) all =
    Evolves-same db (apply_tick upper symbol price observed_at db).1
      (apply_tick-frame upper symbol price observed_at db).1
Step-Evolves {db} (broker_event event) all = process_event-Evolves event db all

pub Reach-Evolves : {db db' : Db} → IsConsistent db → Reach db db' → Evolves db db'
Reach-Evolves {db} c here = Evolves-same db db refl
Reach-Evolves {db} {db'} c (next {mid = mid} r s) =
    Evolves-trans db mid db' (Reach-Evolves c r) (Step-Evolves s (Reach-IsConsistent c r).sound)
