-- ===== src/Services/ExecutionService/Settling.antt =====
-- What a fill, a cancellation and a rejection settle: the cash that is set aside against the order.
use order_management_system.Prelude.{
  ℕ, ◌+◌, ◌*◌, ◌-◌, ◌≤◌, ◌≡◌, String, true, some, List, arith, Option-cases, inl, inr, nat_eq,
}
use order_management_system.Prelude.Table.{find}
use order_management_system.Domain.Enums.{OrderSide, OrderStatus, status_in, routed, status_eq}
use order_management_system.Domain.Errors.{ok, Result-cases}
use order_management_system.Models.{Db, Order, Account, DataValue, BrokerExecutionEvent}
use order_management_system.Services.Lifecycle.{transition}
use order_management_system.Services.PositionService.{apply_execution}
use order_management_system.Keys.{account_key}
use order_management_system.Accounting.{account_id, held, Settles}
use order_management_system.Services.ExecutionService.{
  Reply, or_else, new_fill, book_fill, live_statuses, release_remaining_reservation,
  cancel_remaining, settle, fill_order, apply_rejection,
}

split_mul : (a b p : ℕ) → b ≤ a → (a - b) * p + b * p ≡ a * p
split_mul a b p h = grind arith

-- What is released is what the order held.
release-held :
    (a a' : Account) (o : Order)
    → status_in o.status live_statuses ≡ true
    → release_remaining_reservation a o ≡ ok a'
    → (a'.reserved_cash + held o ≡ a.reserved_cash)
      × (account_key a' ≡ account_key a)
      × (a'.cash_balance ≡ a.cash_balance)
unfolding release_remaining_reservation held
release-held a a' o live h = ground arith

abbrev pub cancelled_order : Order → Order
cancelled_order o = record o {
  cancelled_quantity = o.cancelled_quantity + o.remaining_quantity;
  remaining_quantity = 0;
  version = o.version + 1 + 1;
  status = OrderStatus.cancelled;
}

-- What `cancel_remaining` has written when it returns.
pub cancel_remaining-Settles :
    (o : Order) (reason : String) (event_data : List (String × DataValue)) (r : Order) (db db' : Db)
    → status_in o.status live_statuses ≡ true
    → cancel_remaining o reason event_data db ≡ ok (r, db')
    → Settles o (cancelled_order o) db db'
unfolding cancel_remaining transition held
cancel_remaining-Settles o reason event_data r db db' live h =
    elim (Option-cases (find account_id o.account_id db.accounts)) [
      | inl missing ↦ absurd (ground arith)
      | inr (a, ha) ↦ elim (Result-cases (release_remaining_reservation a o)) [
        | inl (e, failed) ↦ absurd (ground arith)
        | inr (a', released) ↦
            let share = release-held a a' o live released in
            record {
              before = a;
              after = a';
              found = ha;
              same_account = share.1;
              moved = ground arith;
              covered = ground arith;
              accounts = ground arith;
              orders = ground arith;
            }
      ]
    ]

settle-held :
    (o o' : Order) (fill_quantity fill_price : ℕ) (a a' : Account)
    → status_in o.status live_statuses ≡ true
    → fill_quantity ≤ o.remaining_quantity
    → fill_order o fill_quantity fill_price ≡ ok o'
    → settle o fill_quantity fill_price a ≡ ok a'
    → (a'.reserved_cash + held o ≡ a.reserved_cash + held o') × (account_key a' ≡ account_key a)
unfolding settle fill_order held
settle-held o o' fill_quantity fill_price a a' live fits filling settling =
    ground (arith, split_mul o.remaining_quantity fill_quantity o.price fits)

-- `apply_execution` writes to the positions alone.
apply_execution_frame :
    (account : ℕ) (symbol : String) (side : OrderSide) (q p : ℕ) (db db' : Db)
    → apply_execution account symbol side q p db ≡ ok (tt, db')
    → db' ≡ record db { positions = db'.positions }
unfolding apply_execution
apply_execution_frame account symbol side q p db db' h = ground arith

-- What `book_fill` has written when it returns.
pub book_fill-Settles :
    (o r : Order) (event : BrokerExecutionEvent) (p : ℕ) (db db' : Db)
    → status_in o.status live_statuses ≡ true
    → event.filled_quantity ≤ o.remaining_quantity
    → book_fill o event p db ≡ ok (r, db')
    → Settles o r db db'
unfolding book_fill apply_execution new_fill
book_fill-Settles o r event p db db' live fits h =
    elim (Option-cases (find account_id o.account_id db.accounts)) [
      | inl missing ↦ absurd (ground arith)
      | inr (a, ha) ↦ elim (Result-cases (settle o event.filled_quantity p a)) [
        | inl (e, failed) ↦ absurd (ground arith)
        | inr (a', settled) ↦ elim (Result-cases (fill_order o event.filled_quantity p)) [
          | inl (e, failed) ↦ absurd (ground arith)
          | inr (taken, filling) ↦
              let share =
                settle-held o taken event.filled_quantity p a a' live fits filling settled in
              record {
                before = a;
                after = a';
                found = ha;
                same_account = share.1;
                moved = ground arith;
                covered = ground arith;
                accounts = ground arith;
                orders = ground arith;
              }
        ]
      ]
    ]

abbrev pub rejected_order : Order → String → Order
rejected_order o reason = record o {
  rejection_reason = some reason;
  status = OrderStatus.rejected;
  version = o.version + 1;
}

pub apply_rejection-Settles :
    (o : Order) (event : BrokerExecutionEvent) (reply : Reply) (db db' : Db)
    → status_eq o.status routed ≡ true
    → apply_rejection o event db ≡ ok (reply, db')
    → Settles o (rejected_order o (or_else event.reason "Rejected by broker")) db db'
unfolding apply_rejection transition held
apply_rejection-Settles o event reply db db' at_broker h =
    elim (Option-cases (find account_id o.account_id db.accounts)) [
      | inl missing ↦ absurd (ground arith)
      | inr (a, ha) ↦ elim (Result-cases (release_remaining_reservation a o)) [
        | inl (e, failed) ↦ absurd (ground arith)
        | inr (a', released) ↦
            let share = release-held a a' o (ground arith) released in
            record {
              before = a;
              after = a';
              found = ha;
              same_account = share.1;
              moved = ground arith;
              covered = ground arith;
              accounts = ground arith;
              orders = ground arith;
            }
      ]
    ]
