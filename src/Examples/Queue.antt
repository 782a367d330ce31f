-- ===== src/Examples/Queue.antt =====
-- The tasks of the simulated broker, at one order whose first answer is on the queue.
use order_management_system.Prelude.{refl, some, nat_eq, ◌+◌, ◌≡◌, ◌≤◌, true, []}
use order_management_system.Broker.{
  partial_fill_event, broker_order, simulate_order, simulate_outcome, follow_up, partial_quantity,
}
use order_management_system.Broker.Tasks.{
  FakeBroker, Run, begins, submits, puts, fresh_broker, submit_order, put_next, count_of, owed,
  requested, is_about, nothing_lost,
}
use order_management_system.Models.{BrokerExecutionEvent, Order}
use order_management_system.Prelude.Table.{find}
use order_management_system.Domain.Enums.{buy, gtc}
use order_management_system.Domain.Errors.{ok}
use order_management_system.Domain.StateMachine.{ensure_transition_allowed}
use order_management_system.Persistence.Session.{begin}
use order_management_system.Services.Lifecycle.{transition}
use order_management_system.Services.OrderService.{
  creation_block, place_order, reject_order, route_order, reserve, initial_order,
  order_matches_request,
}
use order_management_system.Accounting.{order_id}
use order_management_system.System.{open_account}
use order_management_system.System.World.{
  genesis, Comes, now, later, block, puts as puts_one, submits as submits_one,
}
use order_management_system.System.World.Known.{taken_event_known}
use order_management_system.Examples.{client, surroundings, request, opened, ordered, order_before}
use order_management_system.Examples.Rounds.{drawn}

-- The first of the two answers is on the queue.
abbrev answering : FakeBroker
answering = put_next 0 (submit_order (broker_order order_before) drawn fresh_broker)

answering-Run :
    Run
      (requested 7
        (simulate_order (broker_order order_before) drawn)
        (record { requests = []; asked = []; got = []; dropped = [] }))
      answering
answering-Run = puts 0 (submits (broker_order order_before) drawn begins)

nothing_lost_example :
    (count_of (λ (e : BrokerExecutionEvent). true) answering.queue
        + owed (λ (e : BrokerExecutionEvent). true) answering.tasks
        + 0
      ≡ 2)
    × (1 ≤ count_of (is_about 7) answering.queue + owed (is_about 7) answering.tasks + 0)
unfolding submit_order put_next simulate_order simulate_outcome follow_up partial_quantity
    partial_fill_event
nothing_lost_example = nothing_lost (λ e. true) 7 answering-Run

routing :
    begin (creation_block (surroundings 7) (request buy gtc 100)) opened
    ≡ (ok (order_before, true), ordered)
unfolding ordered creation_block place_order reject_order route_order reserve initial_order
    order_matches_request transition ensure_transition_allowed
routing = refl

answering-Comes : Comes genesis (record { db = ordered; broker = answering })
unfolding opened
answering-Comes =
    later
      (later (later now (block (open_account 1 client)))
        (submits_one (surroundings 7) (request buy gtc 100) order_before drawn routing))
      (puts_one 0)

taken_event_known_example : (o : Order) × (find order_id 7 ordered.orders ≡ some o)
unfolding submit_order put_next simulate_order simulate_outcome partial_fill_event
taken_event_known_example =
    taken_event_known answering-Comes (partial_fill_event (broker_order order_before) drawn)
      (record answering { queue = [] }) refl
