-- ===== src/Lib.antt =====
-- A saga orchestrator for orders: a FastAPI service takes orders, arq workers run the saga of each
-- order against three external services, and a scheduler recovers the orders that got stuck.
--
-- The parts. POST /orders/ saves new orders and enqueues `process_billing` for each. Billing
-- charges the order (or skips the charge of a postpaid one) and enqueues `process_inventory` and
-- `process_logistic`, which run in any order or at once; the last to succeed completes the order,
-- and any failure moves it to COMPENSATING and enqueues `compensation`, which undoes the steps that
-- had succeeded and retries itself. The scheduler polls for stuck orders and hands dead ones to an
-- admin, who may cancel them. All parts meet in the table `orders` and in the job queue.
--
-- Where each part is modelled:
--   Models/Enums     src/db/models/enums.py
--   Models/Order     src/db/models/order.py, order_shipping_detail.py, types.py: the row, and `flush`,
--                    what an UPDATE does to `updated_at`
--   Table            the table as an interface: `find` and `select` are SELECT statements, `write` an
--                    UPDATE of one row by its key, `insert` an INSERT; Table/RowList implements it
--   World            what the workers act on: the table, the jobs enqueued (World/Jobs), the calls
--                    made, the metrics (World/Metrics, src/workers/metrics.py; World/Scrape is what
--                    Prometheus reads of them, a quotient that forgets their order) and the alerts
--                    (World/Effects, src/services/notifications.py)
--   Tasks/Billing, Tasks/Inventory, Tasks/Logistics, Tasks/Compensation
--                    src/workers/saga_tasks/billing.py, inventory.py, logistics.py, compensation.py:
--                    each task from its first to its last statement; the child Row holds the columns
--                    that it assigns
--   Tasks/Parallel   inventory and logistics of one order, in either order
--   Saga             one order under all interleavings: a step relation whose steps are the
--                    transactions of the tasks, the scheduler and the admin on that row
--   Scheduler        src/workers/scheduler.py with the query of src/db/repositories/order.py;
--                    Scheduler/Timetable runs it by its cron table, second by second, with arq's
--                    reading of the table as the interface `Arq`
--   Orders           src/services/order.py and the repository below it; Orders/Request is
--                    src/schemas/order.py, Orders/Endpoint is src/api/endpoints/order.py
--   Orders/Columns, Orders/Validation
--                    what the columns can store, and the bounds of src/schemas/order.py
--   Goods            src/services/good.py, src/db/repositories/good.py, src/core/seed.py
--   Auth             accounts and tokens: src/utils/jwt.py, src/db/repositories/user.py and
--                    refresh_token.py, with PyJWT and bcrypt as the interface `Crypto`; Auth/Service
--                    is src/services/user.py, Auth/Bearer is src/api/dependencies.py, Auth/Endpoints
--                    is src/api/endpoints/user.py; Auth/Libraries makes a `Crypto` of src/utils/security.py
--                    and jwt.py on the libraries below them
--   Settings         src/core/settings.py; Settings/Url is the way of the database's URL through
--                    src/db/migrations/env.py
--   Engine           src/core/database.py
--   Logging          src/core/logging.py, with the module `logging` as an interface, in a process that
--                    may have set up other loggers before
--   App              src/main.py: the application with its routes, the start and the end of a replica
--   Migrations       src/db/migrations: Migrations/Versions has the operations of each version,
--                    Migrations/Environment and Migrations/Command are env.py (its run in one
--                    transaction, and the URL of both modes), Migrations/Metadata has
--                    the tables that the classes of src/db/models declare; `apply` says what an
--                    operation does to a schema, and a `Database` is anything that does so;
--                    Migrations/Clean follows all upgrades of a database in which none of their names
--                    is taken
--   Api              the order endpoints behind the token of the request, the schema and the admin
--                    check
--   Middleware       src/api/middleware.py
--   Worker           src/workers/main_worker.py and the settings of src/workers/scheduler.py: the queue,
--                    and lists of events, in which workers take jobs, jobs are dropped, cron jobs fire
--                    and admins cancel; World/JobIds has the texts of the ids of jobs; Worker/Lifecycle is
--                    the start and the end of a process, src/workers/lifecycle.py; Worker/Recovery and Worker/Deadline
--                    follow a stuck order from the scheduler to the worker
--   Mock             mock_env/main.py: the external services that the repository brings along;
--                    Mock/Latency has their delays and the client of src/workers/lifecycle.py
--   Tests            the theorems at concrete inputs
--
-- How the code corresponds. A task is a function from the world to an outcome (it returns or
-- raises) and a world. What the outside world answers is an argument, one record per task: the
-- response of a service, whether a call to the database or to the broker comes back, whether a
-- commit succeeds, is rolled back, or is done although the connection is lost, and the time. Two
-- sessions of one task with a service call between them let other transactions change the table in
-- between (`meanwhile`). A session that locks its row is one step. `Worker` composes the parts: a
-- job names a task, a task runs to its end, and what it enqueues waits for a worker. There the
-- events do not overlap; the overlapping of tasks is the matter of `Saga`, which the events of
-- `Worker` refine. Times are seconds, ids are numbers, a list of effects has the latest first.
--
-- Bounds. Compensation retries itself while its number is below 4, so `follow_retries` runs on fuel
-- 5, one for each attempt. `revisions_from` follows `down_revision` on fuel 5, one for each
-- version. The loops of the code are over lists and are structural.
--
-- Not modelled. The texts of logs and alerts, measured durations, and what FastAPI, arq, SQLAlchemy
-- and structlog do below the code; the time after which a deferred job starts (a worker may take any
-- job); negative numbers in requests, which the schema or the lookup of the goods refuses; the texts
-- of the API's documentation; the tests.
pub mod Base
pub mod Models
pub mod Table
pub mod World
pub mod Tasks
pub mod Scheduler
pub mod Saga
pub mod Orders
pub mod Worker
pub mod Api
pub mod Goods
pub mod Settings
pub mod Engine
pub mod App
pub mod Migrations
pub mod Middleware
pub mod Logging
pub mod Mock
pub mod Auth
pub mod Tests
