-- ===== src/Examples/Exact.antt =====
-- The theorems on amounts of cash, at an order of a hundred whole units at a price of a hundred.
use order_management_system.Prelude.{◌≡◌, refl, true, some, nat_eq, string_eq}
use order_management_system.Domain.Enums.{OrderStatus, BrokerEventType, buy, gtc}
use order_management_system.Domain.Errors.{ok}
use order_management_system.Domain.StateMachine.{ensure_transition_allowed}
use order_management_system.Models.{
  Db, Account, Order, OrderCreate, BrokerExecutionEvent, account_texts_fit, order_texts_fit,
  text_fits, amount_fits, cash_fits, optional_fits,
}
use order_management_system.Persistence.Session.{begin}
use order_management_system.Services.Lifecycle.{transition}
use order_management_system.Services.AccountService.{AccountCreate, account_block, create_account}
use order_management_system.Services.OrderService.{
  creation_block, place_order, reject_order, route_order, reserve, initial_order,
  order_matches_request,
}
use order_management_system.Services.ExecutionService.{process_event}
use order_management_system.Services.ExecutionService.Applied.{
  IsOpen, IsClosed, broker_cancellation_applied, broker_rejection_applied,
}
use order_management_system.System.{
  open_account, create, empty, IsConsistent, Reach-IsConsistent, empty-IsConsistent,
}
use order_management_system.System.Exact.{WholeReach, WholeReach-Reach, begins, goes}
use order_management_system.Examples.{surroundings, request, fill_event, order_before}

abbrev rich_client : AccountCreate
rich_client = record {
  user_id = "user-1001";
  initial_cash_balance = 1000000000000000000000;
  currency = "INR";
}

abbrev whole_request : OrderCreate
whole_request = record (request buy gtc 10000000000) { price = 10000000000 }

rich : Db
unfolding create_account account_block account_texts_fit text_fits cash_fits
rich = (create_account 1 rich_client empty).1

whole_ordered : Db
unfolding rich creation_block place_order reject_order route_order reserve initial_order
    order_matches_request transition ensure_transition_allowed account_texts_fit order_texts_fit
    text_fits amount_fits cash_fits optional_fits
whole_ordered = (begin (creation_block (surroundings 7) whole_request) rich).1

abbrev holder : Account
holder = record {
  id = 1;
  user_id = "user-1001";
  currency = "INR";
  cash_balance = 1000000000000000000000;
  reserved_cash = 100000000000000000000;
  version = 2;
}

whole_ordered-WholeReach : WholeReach whole_ordered
unfolding whole_ordered rich
whole_ordered-WholeReach =
    goes
      (goes begins (open_account 1 rich_client)
        (record { open_orders = tt; fills = tt; balances = ((10000000000000, refl), tt) }))
      (create (surroundings 7) whole_request)
      (record {
        open_orders = ((100, refl), tt);
        fills = tt;
        balances = ((10000000000000, refl), tt);
      })

whole_ordered-IsConsistent : IsConsistent whole_ordered
whole_ordered-IsConsistent =
    Reach-IsConsistent empty-IsConsistent (WholeReach-Reach whole_ordered-WholeReach)

abbrev whole_order : Order
whole_order = record order_before {
  quantity = 10000000000;
  price = 10000000000;
  remaining_quantity = 10000000000;
}

whole_ordered-IsOpen :
    (event : BrokerExecutionEvent)
    → event.order_id ≡ 7
    → IsOpen event whole_order holder whole_ordered
unfolding whole_ordered
whole_ordered-IsOpen event same_order = record {
  backed = whole_ordered-IsConsistent.backed;
  sound = whole_ordered-IsConsistent.sound 7 whole_order refl;
  stored = rw same_order refl;
  owned = refl;
  columns = refl;
  live = refl;
  unseen = refl;
  whole = (100, refl);
}

broker_cancellation_applied_example :
    ((process_event (fill_event 22 BrokerEventType.cancelled 0) whole_ordered).0 ≡ ok true)
    × IsClosed whole_order
        (record whole_order {
          cancelled_quantity = 10000000000;
          remaining_quantity = 0;
          version = 5;
          status = OrderStatus.cancelled;
        })
        holder
        (process_event (fill_event 22 BrokerEventType.cancelled 0) whole_ordered).1
broker_cancellation_applied_example =
    broker_cancellation_applied (fill_event 22 BrokerEventType.cancelled 0) whole_order holder
      whole_ordered (whole_ordered-IsOpen (fill_event 22 BrokerEventType.cancelled 0) refl) refl

broker_rejection_applied_example :
    ((process_event (fill_event 22 BrokerEventType.rejected 0) whole_ordered).0 ≡ ok true)
    × IsClosed whole_order
        (record whole_order {
          rejection_reason = some "Rejected by broker";
          status = OrderStatus.rejected;
          version = 4;
        })
        holder
        (process_event (fill_event 22 BrokerEventType.rejected 0) whole_ordered).1
unfolding text_fits
broker_rejection_applied_example =
    broker_rejection_applied (fill_event 22 BrokerEventType.rejected 0) whole_order holder
      whole_ordered (whole_ordered-IsOpen (fill_event 22 BrokerEventType.rejected 0) refl) refl refl
      refl
