-- ===== src/Tests/TaskRuns.antt =====
-- The worker tasks on a table with one or two orders.
use saga_orchestrator_patter.Base.{◌≡◌, refl, some, []}
use saga_orchestrator_patter.Models.Enums.{prepayment}
use saga_orchestrator_patter.Models.Order.{Order}
use saga_orchestrator_patter.Table.RowList.{row_list}
use saga_orchestrator_patter.Table.Rows.{keyed}
use saga_orchestrator_patter.World.Jobs.{response, failure, step_status}
use saga_orchestrator_patter.World.Effects.{World, returned, committed, rolled_back}
use saga_orchestrator_patter.Tasks.Env.{StepEnv}
use saga_orchestrator_patter.Tasks.Env as Step
use saga_orchestrator_patter.World.Scrape.{scrape}
use saga_orchestrator_patter.Tasks.Counted.{scrape_order_independent}
use saga_orchestrator_patter.Tasks.Parallel.{Joined, parallel_order_independent}
use saga_orchestrator_patter.Tasks.Billing.{BillingEnv, process_billing}
use saga_orchestrator_patter.Tasks.Billing.Laws as Billing
use saga_orchestrator_patter.Tasks.Billing.Laws.{process_billing-Settles}
use saga_orchestrator_patter.Tasks.Inventory.{process_inventory}
use saga_orchestrator_patter.Tasks.Logistics.Laws as Logistics
use saga_orchestrator_patter.Tasks.Logistics.Laws.{process_logistic-Settles}
use saga_orchestrator_patter.Tasks.Inventory.Laws as Inventory
use saga_orchestrator_patter.Tasks.Inventory.Laws.{
  process_inventory-Settles, process_inventory-other_rows, process_inventory_rolls_back,
  process_inventory_rescued,
}
use saga_orchestrator_patter.Tasks.Logistics.{process_logistic}
use saga_orchestrator_patter.Tests.Fixtures.{
  placed, billed, world_of, two_orders, billing_env, step_env,
}

abbrev accepted : BillingEnv row_list
accepted = billing_env (response 200) committed

-- The commit fails, and with it the whole session.
abbrev broken : BillingEnv row_list
broken = billing_env (response 200) rolled_back

process_billing-Settles_example :
    (row : Order) × (keyed 7 (process_billing accepted 7 two_orders).1.rows.0 ≡ some row)
    × ((process_billing accepted 7 two_orders).0 ≡ returned)
    × Billing.Settles prepayment
        (response 200)
        placed
        row
        7
        []
        (process_billing accepted 7 two_orders).1.jobs
process_billing-Settles_example =
    process_billing-Settles accepted 7 two_orders placed placed
      record {
        read = refl;
        reread = refl;
        inventory_sent = refl;
        logistic_sent = refl;
        compensation_sent = refl;
        committed = refl;
      }
      refl refl

-- Inventory and logistics.
abbrev reserve_ok : StepEnv
reserve_ok = step_env (response 200) committed

abbrev unreachable : StepEnv
unreachable = step_env failure committed

reserve_ok-IsHealthy : Step.IsHealthy reserve_ok
reserve_ok-IsHealthy = record { read = refl; compensation_sent = refl; committed = refl }

unreachable-IsHealthy : Step.IsHealthy unreachable
unreachable-IsHealthy = record { read = refl; compensation_sent = refl; committed = refl }

abbrev start : World row_list
start = world_of billed

parallel_order_independent_example :
    Joined
      (step_status (response 200))
      (step_status failure)
      billed
      7
      start
      (process_logistic unreachable 7 (process_inventory reserve_ok 7 start).1).1
    × Joined
        (step_status (response 200))
        (step_status failure)
        billed
        7
        start
        (process_inventory reserve_ok 7 (process_logistic unreachable 7 start).1).1
parallel_order_independent_example =
    parallel_order_independent reserve_ok unreachable 7 start billed reserve_ok-IsHealthy
      unreachable-IsHealthy refl

process_inventory-Settles_example :
    (row : Order) × (keyed 7 (process_inventory reserve_ok 7 start).1.rows.0 ≡ some row)
    × ((process_inventory reserve_ok 7 start).0 ≡ returned)
    × Inventory.Settles
        (step_status (response 200))
        billed
        row
        7
        []
        (process_inventory reserve_ok 7 start).1.jobs
process_inventory-Settles_example =
    process_inventory-Settles reserve_ok 7 start billed reserve_ok-IsHealthy refl

process_logistic-Settles_example :
    (row : Order) × (keyed 7 (process_logistic unreachable 7 start).1.rows.0 ≡ some row)
    × ((process_logistic unreachable 7 start).0 ≡ returned)
    × Logistics.Settles
        (step_status failure)
        billed
        row
        7
        []
        (process_logistic unreachable 7 start).1.jobs
process_logistic-Settles_example =
    process_logistic-Settles unreachable 7 start billed unreachable-IsHealthy refl

scrape_order_independent_example :
    scrape (process_logistic unreachable 7 (process_inventory reserve_ok 7 start).1).1.metrics
    ≡ scrape (process_inventory reserve_ok 7 (process_logistic unreachable 7 start).1).1.metrics
scrape_order_independent_example =
    scrape_order_independent reserve_ok unreachable 7 start billed reserve_ok-IsHealthy
      unreachable-IsHealthy refl (refl, refl)
