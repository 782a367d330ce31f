-- ===== src/Services/ExecutionService/Applied.antt =====
-- The broker's cancellations and rejections that the code is bound to apply, and what they leave.
use order_management_system.Prelude.{
  ℕ, ◌+◌, ◌≡◌, refl, sym, subst, ◌∙◌, true, none, some, inl, inr, arith, nat_eq, leb, if◌then◌else◌,
  ◌*◌, List,
}
use order_management_system.Prelude.Table.{
  find, find-key, key-find, find-replace_self, replace, replace-replace,
}
use order_management_system.Domain.Enums.{BrokerEventType, OrderStatus, routed, status_in, is_buy}
use order_management_system.Domain.StateMachine.{ensure_transition_allowed}
use order_management_system.Domain.Errors.{Result-cases, ok}
use order_management_system.Models.{
  order_checks, Db, Order, Account, BrokerExecutionEvent, account_columns, order_columns, text_fits,
  optional_fits,
}
use order_management_system.Persistence.Events.{lookup_event}
use order_management_system.Services.Lifecycle.{transition}
use order_management_system.Accounting.{
  order_id, account_id, held, Backed, held-le-reserved, IsWhole,
}
use order_management_system.Soundness.{IsSound}
use order_management_system.Services.ExecutionService.Settling.{cancelled_order, rejected_order}
use order_management_system.Services.ExecutionService.{
  or_else, live_statuses, release_remaining_reservation, cancel_remaining, apply_cancellation,
  apply_rejection, dispatch, record_outcome, handle_new_event, handle_event, process_event,
}

find-rewritten :
    {A : Type 0} (key : A → ℕ) (k : ℕ) (new : A) (xs : List A) (x : A)
    → find key k xs ≡ some x
    → key new ≡ k
    → find key k (replace key new xs) ≡ some new
find-rewritten key k new xs x h same =
    subst (λ j. find key j (replace key new xs) ≡ some new) same
      (find-replace_self key new xs x (subst (λ j. find key j xs ≡ some x) (sym same) h))

-- An open order and its account, as they are stored, and an event that is new.
pub record IsOpen (event : BrokerExecutionEvent) (o : Order) (a : Account) (db : Db) : Type 0 where
  pub backed : Backed db
  pub sound : IsSound o
  pub stored : find order_id event.order_id db.orders ≡ some o
  pub owned : find account_id o.account_id db.accounts ≡ some a
  pub columns : account_columns a ≡ true
  pub live : status_in o.status live_statuses ≡ true
  pub unseen : lookup_event event.event_id db ≡ none
  -- the cash that is released then has at most eight places, and its column does not round it
  pub whole : IsWhole o.remaining_quantity

-- How an order and its account are stored once the order is closed: the reserve is less by what the
-- order still held, and the cash is the same.
pub record IsClosed (o r : Order) (a : Account) (db : Db) : Type 0 where
  pub stored : find order_id o.id db.orders ≡ some r
  pub owner : Account
  pub owned : find account_id o.account_id db.accounts ≡ some owner
  pub released :
      owner.reserved_cash + (if is_buy o.side then o.remaining_quantity * o.price else 0)
      ≡ a.reserved_cash
  pub same_cash : owner.cash_balance ≡ a.cash_balance

module _ (event : BrokerExecutionEvent) (o : Order) (a : Account) (db : Db)
    (p : IsOpen event o a db) where
  row : find order_id o.id db.orders ≡ some o
  row = find-key order_id event.order_id db.orders o p.stored

  -- What the reserve is released to.
  release-ok :
      (a' : Account) × (release_remaining_reservation a o ≡ ok a')
      × (leb a'.reserved_cash a'.cash_balance ≡ true)
      × (account_columns a' ≡ true)
      × (a'.reserved_cash + (if is_buy o.side then o.remaining_quantity * o.price else 0)
          ≡ a.reserved_cash)
      × (a'.cash_balance ≡ a.cash_balance)
      × (a'.id ≡ a.id)
  unfolding release_remaining_reservation held
  release-ok =
      let enough = held-le-reserved p.backed o a o.id row p.owned in
      let covered = p.backed.solvent o.account_id a p.owned in
      elim (Result-cases (release_remaining_reservation a o)) [
        | inl (e, failed) ↦ absurd (ground arith)
        | inr (a', done) ↦ (
          a',
          done,
          ground arith,
          ground (arith, p.columns),
          ground (arith, p.live),
          ground arith,
          ground arith,
        )
      ]

  in_columns : order_columns o ≡ true
  in_columns = p.sound.in_columns

  checked : order_checks o ≡ true
  checked = ground (arith, p.sound, p.live)

  -- The rows that a block has written, one of each table.
  abbrev Writes : Order → Db → Type 0
  Writes r db' =
      (db'.orders ≡ replace order_id r db.orders)
      × (db'.accounts ≡ replace account_id release-ok.0 db.accounts)
      × (db'.processed_events ≡ db.processed_events)

  apply_cancellation-ok :
      (db' : Db) × (apply_cancellation o event db ≡ ok ((true, none), db'))
      × Writes (cancelled_order o) db'
  unfolding apply_cancellation cancel_remaining transition ensure_transition_allowed
  apply_cancellation-ok =
      let (a', released, covered, columns, share, cash, same) = release-ok in
      elim (Result-cases (apply_cancellation o event db)) [
        | inl (e, failed) ↦ absurd (ground (arith, p.owned, p.live, checked, in_columns))
        | inr ((reply, db'), done) ↦ (
          db',
          ground (arith, p.live),
          (
            ground (arith, p.live, replace-replace order_id),
            ground (arith, p.live, p.owned),
            ground arith,
          ),
        )
      ]

  -- The rejection of an order that was routed.
  apply_rejection-ok :
      o.status ≡ routed
      → text_fits 500 (or_else event.reason "Rejected by broker") ≡ true
      → (db' : Db) × (apply_rejection o event db ≡ ok ((true, none), db'))
        × Writes (rejected_order o (or_else event.reason "Rejected by broker")) db'
  unfolding apply_rejection transition ensure_transition_allowed optional_fits
  apply_rejection-ok waiting fits =
      let (a', released, covered, columns, share, cash, same) = release-ok in
      elim (Result-cases (apply_rejection o event db)) [
        | inl (e, failed) ↦ absurd (ground (arith, p.owned, checked, in_columns, fits))
        | inr ((reply, db'), done) ↦
            (db', ground arith, (ground arith, ground (arith, p.owned), ground arith))
      ]

  -- What the handler of a new event applies, `process_event` applies, and records.
  process_event-closed :
      (r : Order) (db' : Db)
      → dispatch event.event_type o event db ≡ ok ((true, none), db')
      → Writes r db'
      → r.id ≡ o.id
      → ((process_event event db).0 ≡ ok true) × IsClosed o r a (process_event event db).1
  unfolding process_event handle_event handle_new_event record_outcome
  process_event-closed r db' done (orders, accounts, same) same_id =
      let written : (process_event event db).1.orders ≡ replace order_id r db.orders =
        ground (arith, p.stored, p.unseen) in
      let paid : (process_event event db).1.accounts ≡ replace account_id release-ok.0 db.accounts =
        ground (arith, p.stored, p.unseen) in
      (
        ground (arith, p.stored, p.unseen),
        record {
          stored = rw written (find-rewritten order_id o.id r db.orders o row same_id);
          owner = release-ok.0;
          owned = rw paid (
              find-rewritten account_id o.account_id release-ok.0 db.accounts a p.owned
                (release-ok.6 ∙ key-find account_id o.account_id db.accounts a p.owned));
          released = release-ok.4;
          same_cash = release-ok.5;
        },
      )

-- A cancellation that the broker reports for an open order is always applied, provided that the order and
-- its account are stored and in the limits of their columns, that the order is sound and the reserves are
-- backed, that what remains of the order is a whole quantity, and that the event is new: the order is then
-- stored as cancelled, with nothing remaining, and the reserve of its account is less by what the order
-- still held.
pub broker_cancellation_applied :
    (event : BrokerExecutionEvent) (o : Order) (a : Account) (db : Db)
    → IsOpen event o a db
    → event.event_type ≡ BrokerEventType.cancelled
    → ((process_event event db).0 ≡ ok true)
      × IsClosed o
          (record o {
            cancelled_quantity = o.cancelled_quantity + o.remaining_quantity;
            remaining_quantity = 0;
            version = o.version + 1 + 1;
            status = OrderStatus.cancelled;
          })
          a
          (process_event event db).1
broker_cancellation_applied event o a db p kind =
    let (db', done, writes) = apply_cancellation-ok event o a db p in
    process_event-closed event o a db p (cancelled_order o) db'
      (subst (λ t. dispatch t o event db ≡ ok ((true, none), db')) (sym kind)
        (unfold dispatch in done))
      writes refl

-- A rejection that the broker reports for a routed order is always applied, provided that the order and its
-- account are stored and in the limits of their columns, that the order is sound and the reserves are
-- backed, that what remains of the order is a whole quantity, that the event is new, and that its reason
-- has at most 500 characters: the order is then stored as rejected, with that reason, and the reserve of
-- its account is less by what the order held.
pub broker_rejection_applied :
    (event : BrokerExecutionEvent) (o : Order) (a : Account) (db : Db)
    → IsOpen event o a db
    → o.status ≡ routed
    → event.event_type ≡ BrokerEventType.rejected
    → text_fits 500 (or_else event.reason "Rejected by broker") ≡ true
    → ((process_event event db).0 ≡ ok true)
      × IsClosed o
          (record o {
            rejection_reason = some (or_else event.reason "Rejected by broker");
            status = OrderStatus.rejected;
            version = o.version + 1;
          })
          a
          (process_event event db).1
broker_rejection_applied event o a db p waiting kind fits =
    let (db', done, writes) = apply_rejection-ok event o a db p waiting fits in
    process_event-closed event o a db p
      (rejected_order o (or_else event.reason "Rejected by broker")) db'
      (subst (λ t. dispatch t o event db ≡ ok ((true, none), db')) (sym kind)
        (unfold dispatch in done))
      writes refl
