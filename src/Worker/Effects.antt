-- ===== src/Worker/Effects.antt =====
-- What one task does to the forward jobs of an order, and to the rows of the other orders.
use saga_orchestrator_patter.Base.{ℕ, ◌≡◌, ◌≢◌, arith}
use saga_orchestrator_patter.Table.{OrderTable}
use saga_orchestrator_patter.World.Jobs.{Function}
use saga_orchestrator_patter.World.Effects.{World, commit, rescue}
use saga_orchestrator_patter.Tasks.Env.{StepEnv}
use saga_orchestrator_patter.Tasks.Billing as Billing
use saga_orchestrator_patter.Tasks.Billing.{BillingEnv}
use saga_orchestrator_patter.Tasks.Billing.Row.{attempt}
use saga_orchestrator_patter.Tasks.Inventory as Inventory
use saga_orchestrator_patter.Tasks.Logistics as Logistics
use saga_orchestrator_patter.Tasks.Compensation as Compensation
use saga_orchestrator_patter.Tasks.Compensation.{CompensationEnv}
use saga_orchestrator_patter.Tasks.Compensation.Laws.{compensation_retry_bound}
use saga_orchestrator_patter.Worker.Forward.{count}

-- A step task adds no forward job.
module _ {T : OrderTable} (env : StepEnv) (id : ℕ) (w : World T) (f : Function) (i : ℕ) where
  pub count-inventory : count f i (Inventory.process_inventory env id w).1.jobs ≡ count f i w.jobs
  unfolding Inventory.process_inventory Inventory.write_phase commit rescue
  count-inventory = ground arith

  pub count-logistics : count f i (Logistics.process_logistic env id w).1.jobs ≡ count f i w.jobs
  unfolding Logistics.process_logistic Logistics.write_phase commit rescue
  count-logistics = ground arith

module _ {T : OrderTable} (env : CompensationEnv T) (id retry : ℕ) (w : World T) (f : Function)
    (i : ℕ) where
  pub count-compensation :
      count f i (Compensation.compensation env id retry w).1.jobs ≡ count f i w.jobs
  count-compensation = ground (arith, compensation_retry_bound env id retry w)

-- Billing adds forward jobs of its own order only.
module _ {T : OrderTable} (env : BillingEnv T) (id : ℕ) (w : World T) where
  pub count-billing_other :
      (f : Function) (i : ℕ)
      → i ≢ id
      → count f i (Billing.process_billing env id w).1.jobs ≡ count f i w.jobs
  unfolding Billing.process_billing Billing.write_phase commit rescue attempt
  count-billing_other f i other = ground arith
