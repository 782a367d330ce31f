-- ===== src/System/World/Events.antt =====
-- Events on the queue and in the tasks of the simulated broker, each about an order that is stored.
use order_management_system.Prelude.{
  ℕ, ◌≡◌, refl, subst, some, List, [], ◌∷◌, ◌++◌, arith, nat_eq, inl, inr, Option-cases, ◌==◌,
  Bool-cases,
}
use order_management_system.Prelude.Table.{find, replace}
use order_management_system.Models.{Db, Order, BrokerExecutionEvent}
use order_management_system.Accounting.{order_id}
use order_management_system.Broker.Tasks.{
  FakeBroker, Task, put_of, done_of, task_id, put_next, on_task_done, discard, take_event,
}

-- An order is stored.
abbrev pub Known : Db → ℕ → Type 0
Known db id = (o : Order) × (find order_id id db.orders ≡ some o)

abbrev pub AllKnown : Db → List BrokerExecutionEvent → Type 0
AllKnown db [] = Unit {0}
AllKnown db (e ∷ es) = Known db e.order_id × AllKnown db es

abbrev pub TasksKnown : Db → List Task → Type 0
TasksKnown db [] = Unit {0}
TasksKnown db (t ∷ ts) = AllKnown db t.pending × TasksKnown db ts

module _ (db : Db) where
  pub AllKnown-append :
      (xs ys : List BrokerExecutionEvent) → AllKnown db xs → AllKnown db ys → AllKnown db (xs ++ ys)
  AllKnown-append [] ys p q = q
  AllKnown-append (x ∷ xs) ys p q = (p.0, AllKnown-append xs ys p.1 q)

  pub TasksKnown-append :
      (xs ys : List Task) → TasksKnown db xs → TasksKnown db ys → TasksKnown db (xs ++ ys)
  TasksKnown-append [] ys p q = q
  TasksKnown-append (x ∷ xs) ys p q = (p.0, TasksKnown-append xs ys p.1 q)

  TasksKnown-find :
      (id : ℕ) (ts : List Task) (t : Task)
      → TasksKnown db ts
      → find (λ (x : Task). x.id) id ts ≡ some t
      → AllKnown db t.pending
  TasksKnown-find id [] t p h = absurd (cc h)
  TasksKnown-find id (x ∷ ts) t p h = elim (Bool-cases (x.id == id)) [
    | inl this ↦
        let same : x ≡ t = ground arith in subst (λ (y : Task). AllKnown db y.pending) same p.0
    | inr other ↦ TasksKnown-find id ts t p.1 (ground arith)
  ]

  TasksKnown-replace :
      (new : Task) (ts : List Task)
      → TasksKnown db ts
      → AllKnown db new.pending
      → TasksKnown db (replace (λ (x : Task). x.id) new ts)
  TasksKnown-replace new [] p q = p
  TasksKnown-replace new (x ∷ ts) p q = elim (Bool-cases (x.id == new.id)) [
    | inl this ↦ rw this (q, p.1)
    | inr other ↦ rw other (p.0, TasksKnown-replace new ts p.1 q)
  ]

  TasksKnown-discard : (id : ℕ) (ts : List Task) → TasksKnown db ts → TasksKnown db (discard id ts)
  TasksKnown-discard id [] p = p
  TasksKnown-discard id (x ∷ ts) p = elim (Bool-cases (x.id == id)) [
    | inl this ↦ rw this p.1
    | inr other ↦ rw other (p.0, TasksKnown-discard id ts p.1)
  ]

-- Orders stay stored.
module _ (db db' : Db) (stays : (id : ℕ) → Known db id → Known db' id) where
  pub AllKnown-stays : (es : List BrokerExecutionEvent) → AllKnown db es → AllKnown db' es
  AllKnown-stays [] p = tt
  AllKnown-stays (e ∷ es) p = (stays e.order_id p.0, AllKnown-stays es p.1)

  pub TasksKnown-stays : (ts : List Task) → TasksKnown db ts → TasksKnown db' ts
  TasksKnown-stays [] p = tt
  TasksKnown-stays (t ∷ ts) p = (AllKnown-stays t.pending p.0, TasksKnown-stays ts p.1)

abbrev pub BrokerKnown : Db → FakeBroker → Type 0
BrokerKnown db b = AllKnown db b.queue × TasksKnown db b.tasks

put_of-Known :
    (db : Db) (task : Task) (pending : List BrokerExecutionEvent) (b : FakeBroker)
    → task.pending ≡ pending
    → AllKnown db pending
    → BrokerKnown db b
    → BrokerKnown db (put_of task b)
put_of-Known db task [] b h own p = rw (h, put_of) p
put_of-Known db task (e ∷ rest) b h own (q, ts) =
    rw (h, put_of)
      (
        AllKnown-append db b.queue (e ∷ []) q (own.0, tt),
        TasksKnown-replace db (record { id = task.id; pending = rest }) b.tasks ts own.1,
      )

pub put_next-Known :
    (db : Db) (id : ℕ) (b : FakeBroker) → BrokerKnown db b → BrokerKnown db (put_next id b)
unfolding put_next
put_next-Known db id b p = elim (Option-cases (find task_id id b.tasks)) [
  | inl nobody ↦ rw (nobody, put_next) p
  | inr (task, found) ↦
      rw (found, put_next)
        (put_of-Known db task task.pending b refl (TasksKnown-find db id b.tasks task p.1 found) p)
]

done_of-Known :
    (db : Db) (task : Task) (pending : List BrokerExecutionEvent) (b : FakeBroker)
    → task.pending ≡ pending
    → BrokerKnown db b
    → BrokerKnown db (done_of task b)
done_of-Known db task [] b h (q, ts) = rw (h, done_of) (q, TasksKnown-discard db task.id b.tasks ts)
done_of-Known db task (e ∷ rest) b h p = rw (h, done_of) p

pub on_task_done-Known :
    (db : Db) (id : ℕ) (b : FakeBroker) → BrokerKnown db b → BrokerKnown db (on_task_done id b)
unfolding on_task_done
on_task_done-Known db id b p = elim (Option-cases (find task_id id b.tasks)) [
  | inl nobody ↦ rw (nobody, on_task_done) p
  | inr (task, found) ↦ rw (found, on_task_done) (done_of-Known db task task.pending b refl p)
]

pub taken-Known :
    (db : Db) (event : BrokerExecutionEvent) (queue : List BrokerExecutionEvent) (b b' : FakeBroker)
    → b.queue ≡ queue
    → take_event b ≡ some (event, b')
    → BrokerKnown db b
    → Known db event.order_id × BrokerKnown db b'
taken-Known db event [] b b' h taken p = absurd (ground arith)
taken-Known db event (e ∷ queue) b b' h taken (q, ts) =
    let first : e ≡ event = ground arith in
    let rest : queue ≡ b'.queue = ground arith in
    let tasks : b.tasks ≡ b'.tasks = ground arith in
    let known = subst (AllKnown db) h q in
    (
      subst (λ (x : BrokerExecutionEvent). Known db x.order_id) first known.0,
      (subst (AllKnown db) rest known.1, subst (TasksKnown db) tasks ts),
    )
