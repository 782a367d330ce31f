-- ===== src/Examples/Answers.antt =====
-- The theorems on the answers of the services, at the market day.
use order_management_system.Prelude.{
  ℕ, ◌+◌, String, ◌≡◌, refl, ap, sym, subst, none, some, arith, nat_eq, string_eq, ◌==◌, ◌&&◌,
  if◌then◌else◌,
}
use order_management_system.Prelude.Int.{pos}
use order_management_system.Prelude.Table.{find}
use order_management_system.Domain.Enums.{cancel_pending, buy, gtc, status_in}
use order_management_system.Domain.Errors.{ok, err, broker_error}
use order_management_system.Domain.StateMachine.{
  ensure_transition_allowed, cancellable_order_statuses,
}
use order_management_system.Models.{
  Order, Position, account_texts_fit, order_texts_fit, text_fits, amount_fits, cash_fits,
  optional_fits,
}
use order_management_system.Persistence.Positions.{position_key_eq}
use order_management_system.Services.Lifecycle.{transition}
use order_management_system.Services.OrderService.{
  creation_block, place_order, reject_order, route_order, reserve, initial_order,
  order_matches_request, submit, create_order,
}
use order_management_system.Services.OrderService.Admission.{create_order_answer}
use order_management_system.Services.CancellationService.{request_and_notify}
use order_management_system.Services.CancellationService.Answers.{request_cancellation_answer}
use order_management_system.Services.MarketDataService.{apply_tick}
use order_management_system.Services.MarketDataService.Marks.{tick_refused}
use order_management_system.Soundness.Evolution.{Later}
use order_management_system.System.{Reach, here, next}
use order_management_system.System.Repeats.{create_order-again}
use order_management_system.Examples.{
  surroundings, request, opened, ordered, part_filled, order_after, order_before,
  part_filled-IsConsistent, account_opened, opened-IsConsistent, filling,
}

ordering_answer :
    create_order (surroundings 7) (request buy gtc 100) none opened ≡ (ok order_before, ordered)
unfolding ordered create_order submit creation_block place_order reject_order route_order reserve
    initial_order order_matches_request transition ensure_transition_allowed account_texts_fit
    order_texts_fit text_fits amount_fits cash_fits optional_fits
ordering_answer = refl

-- The order has been filled in part in between.
create_order-again_example :
    (r : Order) × (find (λ (o : Order). o.id) 7 part_filled.orders ≡ some r)
    × Later order_before r
    × (create_order (surroundings 8) (request buy gtc 100) (some "no route") part_filled
        ≡ (ok r, part_filled))
create_order-again_example =
    create_order-again (surroundings 7) (surroundings 8) (request buy gtc 100) (some "no route")
      order_before opened-IsConsistent (ap (λ x. x.0) ordering_answer)
      (subst (λ x. Reach x.1 part_filled) (sym ordering_answer) (next here filling))

create_order_answer_example :
    ((create_order (surroundings 7) (request buy gtc 100) none opened).0 ≡ ok order_before)
    × (find
          (λ (o : Order). o.id)
          7
          (create_order (surroundings 7) (request buy gtc 100) none opened).1.orders
        ≡ some order_before)
unfolding opened initial_order account_texts_fit order_texts_fit text_fits amount_fits cash_fits
    optional_fits
create_order_answer_example =
    create_order_answer (surroundings 7) (request buy gtc 100) opened account_opened refl refl
      (record {
        fresh_id = refl;
        fresh_key = refl;
        fresh_client = refl;
        some_quantity = omega arith;
        some_price = omega arith;
        fits = refl;
      })

request_cancellation_answer_example :
    ((request_and_notify 7 "by the client" (some "timeout") part_filled).0
      ≡ err (broker_error "timeout"))
    × ((k : ℕ) (x : Order)
        → find (λ (o : Order). o.id) k part_filled.orders ≡ some x
        → find
            (λ (o : Order). o.id)
            k
            (request_and_notify 7 "by the client" (some "timeout") part_filled).1.orders
          ≡ some (
              if 7 == k && status_in x.status cancellable_order_statuses
              then record x { status = cancel_pending; version = x.version + 1 }
              else x))
unfolding part_filled
request_cancellation_answer_example =
    request_cancellation_answer 7 "by the client" (some "timeout") part_filled order_after
      part_filled-IsConsistent.sound refl

-- `upper` here knows one symbol.
abbrev upper : String → String
upper symbol = "RELIANCE"

abbrev first_position : Position
first_position = record {
  account_id = 1;
  symbol = "RELIANCE";
  net_quantity = pos 40;
  average_entry_price = 99;
  realized_pnl = pos 0;
  unrealized_pnl = pos 0;
  last_mark_price = some 99;
}

tick_refused_example : (apply_tick upper "reliance" 0 2000 part_filled).1 ≡ part_filled
tick_refused_example = tick_refused upper "reliance" 0 2000 part_filled refl
