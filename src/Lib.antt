-- ===== src/Lib.antt =====
-- Order management system: the services that take orders, talk to a broker and keep cash, positions
-- and an audit trail.
--
-- The program's parts. A request for an order (app/services/order_service.py) checks the account's
-- buying power, sets cash aside and moves the order to the broker. The broker answers by events
-- (app/services/execution_service.py): fills, rejections, cancellations. A fill pays, releases its
-- share of the cash that was set aside, and changes the position (app/services/position_service.py).
-- A request for cancellation (app/services/cancellation_service.py) waits for the broker's answer.
-- Every change of a status goes through app/services/order_lifecycle.py, which asks the state machine
-- and writes the audit trail. A tick of the market (app/services/market_data_service.py) re-marks the
-- positions of its symbol, whose sums app/services/pnl_service.py reports. The endpoints of app/api
-- read and check a request (app/schemas), call a service and turn its exceptions into status codes
-- (app/main.py). The workers of app/broker/worker.py hand the broker's events to the service and ask for
-- the cancellation of day orders that have expired; app/broker/fake.py plays the broker, and
-- app/market_data/websocket_client.py reads the feed of the market.
--
-- Which file models which part:
--   Prelude        lists as tables with a key, signed integers, Boolean tests
--   Domain         app/domain: enums, exceptions, state machine, order rules, position rules
--   Models         app/models and the requests of app/schemas; the database is a record of tables
--   Schemas        the constraints and validators of app/schemas, and the texts of amounts
--   Persistence    app/repositories, and `session.begin()` as a computation that commits or rolls back
--   Services       app/services, one module for each service, and what each block keeps
--   Broker         app/broker/fake.py: the events for one order, with what is drawn as an argument, and
--                  the tasks that put them on the queue
--   MarketData     app/market_data/websocket_client.py: how ticks are read from a message and applied,
--                  and the loop around the connections
--   Workers        app/broker/worker.py: one round of each worker
--   Api            app/api and app/main.py: the endpoints, their codes and the log of requests
--   Config         app/config.py: the settings and their bounds
--   Logging        app/logging_config.py: what a line of the log holds
--   Migration      alembic/versions/20260723_0001_initial_schema.py: the tables, and the rows against
--                  their columns
--   Keys           the keys of accounts and orders
--   References     the keys and the references of the other tables, and what keeps them
--   Accounting     the invariant between reserved cash and open buy orders
--   Soundness      what holds of every stored order, and how an order may develop
--   Journal        the audit trail and the fills of an order, as against its row
--   System         the blocks of all services as steps from an empty database, and System/World the
--                  database together with the broker and its queue
--   Examples       a small market day, on which the tests run
--
-- State and operations. A service method that opens a transaction is a function from the database to
-- an answer and the database after the commit or the rollback; `create_order` is `create_order`,
-- `_apply_fill` is `apply_fill` with the helpers `book_fill` and `after_fill`, and so on: the functions
-- keep the names of the methods. A row that the source changes in place is written back whole by
-- `save`, with the limits of its columns and its check constraints. The row locks of the source make blocks on one order run one
-- after the other, so a block is one step, and interleavings are sequences of steps; the two blocks of
-- a creation whose routing fails are two steps.
--
-- Numbers. Quantities count units of 10^-8, prices and cash units of their own, such that a quantity
-- times a price is an amount of cash; sums and products are exact and a division is rounded to the
-- nearest unit of price, as its column keeps it, where `decimal` carries twenty-eight digits until the
-- write. A write checks that texts and numbers are in the limits of their columns. The rounding of cash
-- to the eight places of its columns is not modelled: the results on amounts of cash are about runs in
-- which quantities are whole numbers, so that no amount has more places.
-- Loops and fuel: every function is total, and recursion is on a list. Only the digits of an amount are
-- counted: sixteen before the point and eight after it are all that its column has.
--
-- The foreign keys are no checks of the model. What the operations of the migration do to a database,
-- and what the network does to a connection, is given.
--
-- Not modelled: reading and writing JSON, reading the environment, the wiring of the application, the
-- network, database connections, the log lines of the services, and the timing of the workers and of
-- the broker simulator, which only decides what step comes next; time stamps of rows, and columns that
-- nothing reads. UUIDs, times, random draws and texts that come from outside, `str.upper`, `str.strip`
-- and the database's order of texts are arguments.
pub mod Prelude
pub mod Config
pub mod Domain
pub mod Models
pub mod Persistence
pub mod Services
pub mod Schemas
pub mod Workers
pub mod Logging
pub mod MarketData
pub mod Migration
pub mod Api
pub mod Broker
pub mod Keys
pub mod References
pub mod Accounting
pub mod Journal
pub mod Soundness
pub mod System
mod Examples
