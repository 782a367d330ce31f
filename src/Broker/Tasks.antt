-- ===== src/Broker/Tasks.antt =====
-- app/broker/fake.py: the tasks in which the simulated broker answers, and the queue that it shares
-- with the worker. A task sleeps, puts an event, and may do so once more; which task wakes up next is
-- not known, so every step names the task that takes it.
use order_management_system.Prelude.{
  ℕ, ◌+◌, ◌≡◌, ◌≤◌, refl, String, Bool, Option, none, some, List, [], ◌∷◌, ◌++◌, arith, ◌==◌,
  nat_eq, inl, inr, Option-cases, if◌then◌else◌,
}
use order_management_system.Prelude.Table.{
  find, replace, key-find, sum_of, sum_of-append, sum_of-replace,
}
use order_management_system.Models.{BrokerExecutionEvent}
use order_management_system.Broker.{
  BrokerOrder, Draws, draw_rejected, draw_full, draw_partial, simulate_order, simulate_outcome,
  full_fill_event, partial_fill_event, rejection_event, simulate_cancellation,
}

-- A task, and the events that it has still to put.
pub record Task : Type 0 where
  pub id : ℕ
  pub pending : List BrokerExecutionEvent

-- `_tasks`, the queue, and how many tasks have been started.
pub record FakeBroker : Type 0 where
  pub tasks : List Task
  pub queue : List BrokerExecutionEvent
  pub started : ℕ

abbrev pub fresh_broker : FakeBroker
fresh_broker = record { tasks = []; queue = []; started = 0 }

abbrev pub start_task : List BrokerExecutionEvent → FakeBroker → FakeBroker
start_task events broker = record broker {
  tasks = broker.tasks ++ record { id = broker.started; pending = events } ∷ [];
  started = broker.started + 1;
}

unfoldable pub submit_order : BrokerOrder → Draws → FakeBroker → FakeBroker
submit_order order draws = start_task (simulate_order order draws)

unfoldable pub cancel_task : ℕ → String → ℕ → ℕ → FakeBroker → FakeBroker
cancel_task order_id reason event_id timestamp =
    start_task (simulate_cancellation order_id reason event_id timestamp ∷ [])

abbrev pub task_id : Task → ℕ
task_id t = t.id

-- `await self._queue.put(…)`, in one of the tasks.
abbrev pub put_of : Task → FakeBroker → FakeBroker
put_of task broker = elim task.pending [
  | [] ↦ broker
  | event ∷ rest ↦ record broker {
    tasks = replace task_id (record { id = task.id; pending = rest }) broker.tasks;
    queue = broker.queue ++ event ∷ [];
  }
]

unfoldable pub put_next : ℕ → FakeBroker → FakeBroker
put_next id broker = elim (find task_id id broker.tasks) [
  | none ↦ broker
  | some task ↦ put_of task broker
]

-- `self._tasks.discard(task)`
abbrev pub discard : ℕ → List Task → List Task
discard id [] = []
discard id (t ∷ ts) = let rest = discard id ts in if t.id == id then ts else t ∷ rest

abbrev pub done_of : Task → FakeBroker → FakeBroker
done_of task broker = elim task.pending [
  | [] ↦ record broker { tasks = discard task.id broker.tasks }
  | event ∷ rest ↦ broker
]

-- `_on_task_done`, which is called once a task has nothing left to do.
unfoldable pub on_task_done : ℕ → FakeBroker → FakeBroker
on_task_done id broker = elim (find task_id id broker.tasks) [
  | none ↦ broker
  | some task ↦ done_of task broker
]

-- `close`: every task is cancelled, and what is on the queue stays there.
unfoldable pub close : FakeBroker → FakeBroker
close broker = record broker { tasks = [] }

-- `queue.get()` of the worker.
abbrev pub take_event : FakeBroker → Option (BrokerExecutionEvent × FakeBroker)
take_event broker = elim broker.queue [
  | [] ↦ none
  | event ∷ rest ↦ some (event, record broker { queue = rest })
]

-- The events that tasks have still to put.
abbrev pub pending_of : List Task → List BrokerExecutionEvent
pending_of [] = []
pending_of (t ∷ ts) = t.pending ++ pending_of ts

-- The history of a broker: the orders of the requests, the events that answer them, those that the worker
-- has got, and those that were given up when the broker was closed.
pub record History : Type 0 where
  pub requests : List ℕ
  pub asked : List BrokerExecutionEvent
  pub got : List BrokerExecutionEvent
  pub dropped : List BrokerExecutionEvent

abbrev pub requested : ℕ → List BrokerExecutionEvent → History → History
requested order_id events h = record h {
  requests = h.requests ++ order_id ∷ [];
  asked = h.asked ++ events;
}

pub data Run : History → FakeBroker → Type 0 where
  begins : Run (record { requests = []; asked = []; got = []; dropped = [] }) fresh_broker
  submits :
      {h : History} {b : FakeBroker} (order : BrokerOrder) (draws : Draws)
      → Run h b
      → Run (requested order.order_id (simulate_order order draws) h) (submit_order order draws b)
  cancels :
      {h : History} {b : FakeBroker} (order_id : ℕ) (reason : String) (event_id timestamp : ℕ)
      → Run h b
      → Run
          (requested order_id (simulate_cancellation order_id reason event_id timestamp ∷ []) h)
          (cancel_task order_id reason event_id timestamp b)
  puts : {h : History} {b : FakeBroker} (id : ℕ) → Run h b → Run h (put_next id b)
  ends : {h : History} {b : FakeBroker} (id : ℕ) → Run h b → Run h (on_task_done id b)
  gets_one :
      {h : History} {b b' : FakeBroker} (event : BrokerExecutionEvent)
      → Run h b
      → take_event b ≡ some (event, b')
      → Run (record h { got = h.got ++ event ∷ [] }) b'
  closes :
      {h : History} {b : FakeBroker}
      → Run h b
      → Run (record h { dropped = h.dropped ++ pending_of b.tasks }) (close b)

module _ (p : BrokerExecutionEvent → Bool) where
  -- How many events of a kind there are.
  abbrev pub count_of : List BrokerExecutionEvent → ℕ
  count_of = sum_of (λ (e : BrokerExecutionEvent). if p e then 1 else 0)

  -- How many the tasks have still to put.
  abbrev pub owed : List Task → ℕ
  owed = sum_of (λ (t : Task). count_of t.pending)

  start-owed :
      (events : List BrokerExecutionEvent) (b : FakeBroker)
      → owed (start_task events b).tasks ≡ owed b.tasks + count_of events
  start-owed events b = ground (
    arith,
    sum_of-append (λ (t : Task). count_of t.pending) b.tasks
        (record { id = b.started; pending = events } ∷ []),
  )

  put_of-owed :
      (task : Task) (pending : List BrokerExecutionEvent) (b : FakeBroker)
      → task.pending ≡ pending
      → find task_id task.id b.tasks ≡ some task
      → count_of (put_of task b).queue + owed (put_of task b).tasks
        ≡ count_of b.queue + owed b.tasks
  put_of-owed task [] b h found = ground arith
  put_of-owed task (event ∷ rest) b h found = ground (
    arith,
    sum_of-append (λ (e : BrokerExecutionEvent). if p e then 1 else 0) b.queue (event ∷ []),
    sum_of-replace task_id (λ (t : Task). count_of t.pending)
        (record { id = task.id; pending = rest }) b.tasks task found,
  )

  put-owed :
      (id : ℕ) (b : FakeBroker)
      → count_of (put_next id b).queue + owed (put_next id b).tasks
        ≡ count_of b.queue + owed b.tasks
  unfolding put_next
  put-owed id b = elim (Option-cases (find task_id id b.tasks)) [
    | inl nobody ↦ ground arith
    | inr (task, found) ↦
        ground (arith, key-find task_id id b.tasks task found, put_of-owed task task.pending b refl)
  ]

  discard-owed :
      (id : ℕ) (ts : List Task) (t : Task)
      → find task_id id ts ≡ some t
      → t.pending ≡ []
      → owed (discard id ts) ≡ owed ts
  discard-owed id [] t h free = refl
  discard-owed id (x ∷ ts) t h free = ground (arith, discard-owed id ts t)

  done_of-owed :
      (task : Task) (pending : List BrokerExecutionEvent) (b : FakeBroker)
      → task.pending ≡ pending
      → find task_id task.id b.tasks ≡ some task
      → ((done_of task b).queue ≡ b.queue) × (owed (done_of task b).tasks ≡ owed b.tasks)
  done_of-owed task [] b h found =
      (ground arith, ground (arith, discard-owed task.id b.tasks task found h))
  done_of-owed task (event ∷ rest) b h found = (ground arith, ground arith)

  done-owed :
      (id : ℕ) (b : FakeBroker)
      → ((on_task_done id b).queue ≡ b.queue) × (owed (on_task_done id b).tasks ≡ owed b.tasks)
  unfolding on_task_done
  done-owed id b = elim (Option-cases (find task_id id b.tasks)) [
    | inl nobody ↦ (ground arith, ground arith)
    | inr (task, found) ↦
        let owner = key-find task_id id b.tasks task found in
        let kept = done_of-owed task task.pending b refl in
        (ground (arith, owner, kept), ground (arith, owner, kept))
  ]

  got-owed :
      (event : BrokerExecutionEvent) (b b' : FakeBroker)
      → take_event b ≡ some (event, b')
      → (count_of b.queue ≡ count_of (event ∷ b'.queue)) × (b'.tasks ≡ b.tasks)
  got-owed event b b' h = (ground arith, ground arith)

  owed-pending : (ts : List Task) → count_of (pending_of ts) ≡ owed ts
  owed-pending [] = refl
  owed-pending (t ∷ ts) = ground (
    arith,
    owed-pending ts,
    sum_of-append (λ (e : BrokerExecutionEvent). if p e then 1 else 0) t.pending (pending_of ts),
  )

  -- Of every kind, what was got, waits or was given up is what was asked.
  all_there :
      {h : History} {b : FakeBroker}
      → Run h b
      → count_of h.got + count_of b.queue + owed b.tasks + count_of h.dropped ≡ count_of h.asked
  unfolding submit_order cancel_task close
  all_there begins = refl
  all_there (submits {h} {b} order draws r) = ground (
    arith,
    all_there r,
    start-owed (simulate_order order draws) b,
    sum_of-append (λ (e : BrokerExecutionEvent). if p e then 1 else 0) h.asked
        (simulate_order order draws),
  )
  all_there (cancels {h} {b} order_id reason event_id timestamp r) =
      let answer = simulate_cancellation order_id reason event_id timestamp in
      ground (
        arith,
        all_there r,
        start-owed (answer ∷ []) b,
        sum_of-append (λ (e : BrokerExecutionEvent). if p e then 1 else 0) h.asked (answer ∷ []),
      )
  all_there (puts {b = b} id r) = ground (arith, all_there r, put-owed id b)
  all_there (ends {b = b} id r) = ground (arith, all_there r, done-owed id b)
  all_there (gets_one {h} {b} {b'} event r taken) = ground (
    arith,
    all_there r,
    got-owed event b b' taken,
    sum_of-append (λ (e : BrokerExecutionEvent). if p e then 1 else 0) h.got (event ∷ []),
  )
  all_there (closes {h} {b} r) = ground (
    arith,
    all_there r,
    owed-pending b.tasks,
    sum_of-append (λ (e : BrokerExecutionEvent). if p e then 1 else 0) h.dropped
        (pending_of b.tasks),
  )

-- How often an order is in a list of requests, and whether an event is about it.
abbrev pub times : ℕ → List ℕ → ℕ
times k = sum_of (λ (id : ℕ). if id == k then 1 else 0)

abbrev pub is_about : ℕ → BrokerExecutionEvent → Bool
is_about k e = e.order_id == k

simulate_order-answers :
    (order : BrokerOrder) (draws : Draws)
    → 1 ≤ count_of (is_about order.order_id) (simulate_order order draws)
unfolding simulate_order simulate_outcome full_fill_event partial_fill_event rejection_event
simulate_order-answers order draws = elim draws.outcome [
  | draw_rejected ↦ ground arith
  | draw_full ↦ ground arith
  | draw_partial ↦ ground arith
]

cancellation_about :
    (order_id : ℕ) (reason : String) (event_id timestamp : ℕ)
    → (simulate_cancellation order_id reason event_id timestamp).order_id ≡ order_id
unfolding simulate_cancellation
cancellation_about order_id reason event_id timestamp = refl

-- Every request is answered at least once.
requests_answered :
    {h : History} {b : FakeBroker} (k : ℕ)
    → Run h b
    → times k h.requests ≤ count_of (is_about k) h.asked
requests_answered k begins = omega arith
requests_answered k (submits {h} order draws r) = ground (
  arith,
  requests_answered k r,
  simulate_order-answers order draws,
  sum_of-append (λ (id : ℕ). if id == k then 1 else 0) h.requests (order.order_id ∷ []),
  sum_of-append (λ (e : BrokerExecutionEvent). if is_about k e then 1 else 0) h.asked
      (simulate_order order draws),
)
requests_answered k (cancels {h} order_id reason event_id timestamp r) =
    let answer = simulate_cancellation order_id reason event_id timestamp in
    ground (
      arith,
      requests_answered k r,
      cancellation_about order_id reason event_id timestamp,
      sum_of-append (λ (id : ℕ). if id == k then 1 else 0) h.requests (order_id ∷ []),
      sum_of-append (λ (e : BrokerExecutionEvent). if is_about k e then 1 else 0) h.asked
          (answer ∷ []),
    )
requests_answered k (puts id r) = requests_answered k r
requests_answered k (ends id r) = requests_answered k r
requests_answered k (gets_one event r taken) = requests_answered k r
requests_answered k (closes r) = requests_answered k r

-- Whichever task wakes up when, and whenever the broker is closed, no answer of the broker is lost or sent
-- twice: of every kind, the events that the worker has got, those on the queue, those that tasks have
-- still to put and those that were given up with their tasks at the close are together the events of all
-- simulations that were started; and about every order these are at least as many as the requests for it
-- or for its cancellation.
pub nothing_lost :
    {h : History} {b : FakeBroker} (p : BrokerExecutionEvent → Bool) (k : ℕ)
    → Run h b
    → (count_of p h.got + count_of p b.queue + owed p b.tasks + count_of p h.dropped
        ≡ count_of p h.asked)
      × (times k h.requests
          ≤ count_of (is_about k) h.got
            + count_of (is_about k) b.queue
            + owed (is_about k) b.tasks
            + count_of (is_about k) h.dropped)
nothing_lost p k r = (all_there p r, omega (arith, all_there (is_about k) r, requests_answered k r))

-- After `close` no task puts anything any more.
pub close_silences :
    (id : ℕ) (b : FakeBroker)
    → (put_next id (close b) ≡ close b) × (on_task_done id (close b) ≡ close b)
unfolding close put_next on_task_done
close_silences id b = (refl, refl)
