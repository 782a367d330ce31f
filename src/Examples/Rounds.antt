-- ===== src/Examples/Rounds.antt =====
-- The theorems on the simulated broker, the workers and the system, at the market day.
use order_management_system.Prelude.{◌≡◌, ◌≤◌, refl, true, false, some, arith, nat_eq}
use order_management_system.Prelude.Table.{find}
use order_management_system.Domain.Enums.{buy, day, partial_fill}
use order_management_system.Domain.Errors.{ok}
use order_management_system.Domain.StateMachine.{ensure_transition_allowed}
use order_management_system.Models.{
  Db, Order, optional_fits, text_fits, account_texts_fit, cash_fits, order_texts_fit, amount_fits,
}
use order_management_system.Persistence.Session.{begin}
use order_management_system.Services.Lifecycle.{transition}
use order_management_system.Services.OrderService.{
  creation_block, place_order, reject_order, route_order, reserve, initial_order,
  order_matches_request,
}
use order_management_system.Services.ExecutionService.{process_event}
use order_management_system.Services.CancellationService.{request_cancellation}
use order_management_system.Services.CancellationService.Cash.{pending_order}
use order_management_system.Journal.{filled_by}
use order_management_system.Broker.{broker_order, Draws, draw_partial, simulate_order}
use order_management_system.Broker.Bounds.{simulate_order_fits, all_valid, total_filled}
use order_management_system.Workers.{expiry_scan}
use order_management_system.Workers.Expiry.{expiry_scan_cancels}
use order_management_system.System.{
  here, next, request_cancel, create, IsConsistent, Reach-IsConsistent,
}
use order_management_system.System.Trail.{reachable_fills}
use order_management_system.System.Redelivery.{redelivery}
use order_management_system.Examples.{
  surroundings, request, fill_event, opened, part_filled, part_filled-Reach, order_after,
  order_before, opened-IsConsistent, ordered-IsConsistent, filling_answer,
}

reachable_fills_example : filled_by 7 part_filled.fills ≡ 40
unfolding part_filled
reachable_fills_example = reachable_fills part_filled-Reach 7 order_after refl

redelivery_example :
    process_event
      (fill_event 21 partial_fill 40)
      (request_cancellation 7 "by the client" part_filled).1
    ≡ (ok false, (request_cancellation 7 "by the client" part_filled).1)
unfolding part_filled
redelivery_example =
    redelivery (fill_event 21 partial_fill 40) true ordered-IsConsistent filling_answer
      (next here (request_cancel 7 "by the client"))

abbrev pub drawn : Draws
drawn = record {
  outcome = draw_partial;
  ratio_above = 2;
  ratio_below = 5;
  follows = true;
  event_id = 31;
  execution = 41;
  timestamp = 1001;
  next_event_id = 32;
  next_execution = 42;
  next_timestamp = 1002;
}

simulate_order_fits_example :
    (all_valid (simulate_order (broker_order order_before) drawn) ≡ true)
    × (total_filled (simulate_order (broker_order order_before) drawn) ≤ 100)
simulate_order_fits_example =
    simulate_order_fits (broker_order order_before) drawn (omega arith) (omega arith)

-- The same order, good for the day: it expires at 1300.
day_ordered : Db
unfolding opened creation_block place_order reject_order route_order reserve initial_order
    order_matches_request transition ensure_transition_allowed account_texts_fit text_fits cash_fits
    order_texts_fit amount_fits optional_fits
day_ordered = (begin (creation_block (surroundings 7) (request buy day 100)) opened).1

abbrev day_order : Order
day_order = record order_before { time_in_force = day; expires_at = some 1300 }

day_ordered-IsConsistent : IsConsistent day_ordered
unfolding day_ordered
day_ordered-IsConsistent =
    Reach-IsConsistent opened-IsConsistent
      (next here (create (surroundings 7) (request buy day 100)))

expiry_scan_cancels_example :
    find (λ (o : Order). o.id) 7 (expiry_scan 1300 day_ordered).orders
    ≡ some (pending_order day_order)
unfolding day_ordered
expiry_scan_cancels_example =
    expiry_scan_cancels 1300 7 day_ordered day_order day_ordered-IsConsistent.sound (omega arith)
      refl refl
