-- ===== src/Examples.antt =====
-- A small market day on which the tests and the examples of the theorems run: an account with 100000
-- units of cash, a buy order of 100 at 100 that the broker fills in part, and one that is too large.
mod Answers
mod Exact
mod Feed
mod Queue
mod Requests
mod Rounds
mod Store
use order_management_system.Prelude.{
  ℕ, ◌≡◌, ◌≢◌, ◌↔◌, ◌<◌, ◌≤◌, refl, true, none, some, [], ◌∷◌, arith, nat_eq,
}
use order_management_system.Prelude.Int.{pos, abs, ◌+ℤ◌, ◌-ℤ◌, ◌*ℤ◌}
use order_management_system.Prelude.Table.{sum_of}
use order_management_system.Prelude.Uuid.{uuid_text}
use order_management_system.Domain.Enums.{
  OrderStatus, status_in, routed, partially_filled, filled, buy, sell, limit, gtc, OrderSide,
  TimeInForce, BrokerEventType, partial_fill,
}
use order_management_system.Domain.StateMachine.{ensure_transition_allowed}
use order_management_system.Domain.PositionRules.{
  PositionCalculation, signed_fill, quotient, divide, calculate_position_after_fill,
  calculate_unrealized_pnl,
}
use order_management_system.Domain.Errors.{ok}
use order_management_system.Models.{
  Db, Account, Order, OrderCreate, BrokerExecutionEvent, account_texts_fit, order_texts_fit,
  text_fits, amount_fits, cash_fits, optional_fits, fill_columns, position_columns,
}
use order_management_system.Persistence.Session.{begin}
use order_management_system.Services.Lifecycle.{transition}
use order_management_system.Services.PositionService.{apply_execution}
use order_management_system.Services.AccountService.{AccountCreate, account_block, create_account}
use order_management_system.Services.OrderService.{
  create_order, Surroundings, creation_block, place_order, reject_order, route_order, reserve,
  initial_order, order_matches_request,
}
use order_management_system.Services.ExecutionService.{
  cancel_remaining, cancel_ioc_remainder, release_remaining_reservation, fill_order, settle,
  new_fill, after_fill, book_fill, execute_fill, apply_fill, apply_priced_fill, dispatch,
  record_outcome, handle_new_event, handle_event, process_event,
}
use order_management_system.Services.CancellationService.{request_cancellation}
use order_management_system.Accounting.{order_id, held_for, Backed}
use order_management_system.Services.ExecutionService.Cash.{process_event-Backed}
use order_management_system.Services.OrderService.Cash.{create_order-Backed}
use order_management_system.Services.CancellationService.Cash.{request_cancellation-Backed}
use order_management_system.Domain.PositionRules.Balance.{total_pnl}
use order_management_system.Domain.PositionRules.Equity.{close_conserves}
use order_management_system.Domain.StateMachine.{terminal_order_statuses}
use order_management_system.Domain.StateMachine.Progress.{
  ensure_transition_allowed-rank, terminal_iff_stuck,
}
use order_management_system.System.{
  Step, Reach, here, next, open_account, create, broker_event, empty, Reach-IsConsistent,
  empty-IsConsistent, IsConsistent, Step-IsConsistent,
}

abbrev client : AccountCreate
client = record { user_id = "user-1001"; initial_cash_balance = 100000; currency = "INR" }

abbrev surroundings : ℕ → Surroundings
surroundings id = record { order_id = id; now = 1000; day_order_expiry_seconds = 300 }

abbrev request : OrderSide → TimeInForce → ℕ → OrderCreate
request side tif quantity = record {
  client_order_id = "ORDER-1001";
  idempotency_key = "client-1001-order-1001";
  account_id = 1;
  symbol = "RELIANCE";
  side = side;
  order_type = limit;
  time_in_force = tif;
  quantity = quantity;
  price = 100;
}

abbrev fill_event : ℕ → BrokerEventType → ℕ → BrokerExecutionEvent
fill_event id kind quantity = record {
  event_id = id;
  event_type = kind;
  order_id = 7;
  timestamp = 1001;
  filled_quantity = quantity;
  fill_price = some 99;
  execution_id = none;
  reason = none;
}

opened : Db
unfolding create_account account_block account_texts_fit text_fits cash_fits
opened = (create_account 1 client empty).1

ordered : Db
unfolding opened creation_block place_order reject_order route_order reserve initial_order
    order_matches_request transition ensure_transition_allowed account_texts_fit text_fits cash_fits
    order_texts_fit amount_fits optional_fits
ordered = (begin (creation_block (surroundings 7) (request buy gtc 100)) opened).1

-- Forty units are filled a unit of price below the limit.
part_filled : Db
unfolding ordered process_event handle_event handle_new_event dispatch apply_fill apply_priced_fill
    execute_fill book_fill fill_order settle new_fill after_fill cancel_ioc_remainder
    cancel_remaining release_remaining_reservation record_outcome apply_execution
    calculate_position_after_fill calculate_unrealized_pnl divide quotient uuid_text ◌+ℤ◌ ◌-ℤ◌ ◌*ℤ◌
    account_texts_fit text_fits cash_fits order_texts_fit amount_fits optional_fits fill_columns
    position_columns
part_filled = (process_event (fill_event 21 partial_fill 40) ordered).1

abbrev account_after : Account
account_after = record {
  id = 1;
  user_id = "user-1001";
  currency = "INR";
  cash_balance = 96040;
  reserved_cash = 6000;
  version = 3;
}

part_filled-account : part_filled.accounts ≡ account_after ∷ []
unfolding part_filled
part_filled-account = refl

part_filled-Reach : Reach empty part_filled
unfolding part_filled
part_filled-Reach =
    next (next (next here (open_account 1 client)) (create (surroundings 7) (request buy gtc 100)))
      (broker_event (fill_event 21 partial_fill 40))

abbrev order_after : Order
order_after = record {
  id = 7;
  client_order_id = "ORDER-1001";
  idempotency_key = "client-1001-order-1001";
  account_id = 1;
  symbol = "RELIANCE";
  side = buy;
  order_type = limit;
  time_in_force = gtc;
  quantity = 100;
  price = 100;
  filled_quantity = 40;
  cancelled_quantity = 0;
  remaining_quantity = 60;
  average_fill_price = some 99;
  status = partially_filled;
  rejection_reason = none;
  expires_at = none;
  version = 5;
}

abbrev order_before : Order
order_before = record order_after {
  filled_quantity = 0;
  remaining_quantity = 100;
  average_fill_price = none;
  status = routed;
  version = 3;
}

opened-IsConsistent : IsConsistent opened
unfolding opened
opened-IsConsistent = Reach-IsConsistent empty-IsConsistent (next here (open_account 1 client))

ordered-IsConsistent : IsConsistent ordered
unfolding ordered
ordered-IsConsistent =
    Reach-IsConsistent opened-IsConsistent
      (next here (create (surroundings 7) (request buy gtc 100)))

filling : Step ordered part_filled
unfolding part_filled
filling = broker_event (fill_event 21 partial_fill 40)

-- Four of ten units bought at 100 are sold at 110, with the mark at 120.
close_conserves_example :
    total_pnl (pos 40) (pos 6) 100 120
    ≡ total_pnl (pos 0) (pos 10) 100 120 +ℤ (pos 120 -ℤ pos 110) *ℤ signed_fill sell 4
unfolding calculate_position_after_fill ◌+ℤ◌ ◌-ℤ◌ ◌*ℤ◌
close_conserves_example =
    close_conserves (pos 10) 100 110 120 4 (pos 0) sell
      (record { net_quantity = pos 6; average_entry_price = 100; realized_pnl = pos 40 })
      (omega arith) refl refl

ensure_transition_allowed-rank_example : 2 < 3
unfolding ensure_transition_allowed
ensure_transition_allowed-rank_example = ensure_transition_allowed-rank routed partially_filled refl

part_filled-IsConsistent : IsConsistent part_filled
part_filled-IsConsistent = Step-IsConsistent filling ordered-IsConsistent

filling_answer : (process_event (fill_event 21 partial_fill 40) ordered).0 ≡ ok true
unfolding ordered process_event handle_event handle_new_event dispatch apply_fill apply_priced_fill
    execute_fill book_fill fill_order settle new_fill after_fill cancel_ioc_remainder
    cancel_remaining release_remaining_reservation record_outcome transition
    ensure_transition_allowed apply_execution calculate_position_after_fill calculate_unrealized_pnl
    divide quotient uuid_text ◌+ℤ◌ ◌-ℤ◌ ◌*ℤ◌ account_texts_fit order_texts_fit text_fits amount_fits
    cash_fits optional_fits fill_columns position_columns
filling_answer = refl

abbrev account_opened : Account
account_opened = record account_after { cash_balance = 100000; reserved_cash = 0; version = 1 }
