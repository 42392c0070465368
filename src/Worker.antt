-- ===== src/Worker.antt =====
-- The workers and the scheduler as a whole: src/workers/main_worker.py registers the tasks under
-- the names that the jobs carry, and src/workers/scheduler.py the cron jobs. A worker takes a job
-- out of the queue and runs it to its end; whether a task returns or raises, its job is done.
pub mod Forward
pub mod Effects
pub mod Cron
pub mod Refines
pub mod Called
pub mod Lifecycle
pub mod Runs
pub mod Created
pub mod Errors
pub mod Recovery
pub mod Deadline
pub mod Registered
use saga_orchestrator_patter.Base.{ℕ, zero, suc, ◌≡◌, Bool, Option, none, some, List, [], ◌∷◌}
use saga_orchestrator_patter.Table.{OrderTable}
use saga_orchestrator_patter.World.Jobs.{
  Function, Job, process_billing, process_inventory, process_logistic, compensation,
  sync_manual_intervention_gauge,
}
use saga_orchestrator_patter.World.Effects.{Outcome, World}
use saga_orchestrator_patter.Tasks.Env.{StepEnv}
use saga_orchestrator_patter.Tasks.Billing as Billing
use saga_orchestrator_patter.Tasks.Billing.{BillingEnv}
use saga_orchestrator_patter.Tasks.Inventory as Inventory
use saga_orchestrator_patter.Tasks.Logistics as Logistics
use saga_orchestrator_patter.Tasks.Compensation as Compensation
use saga_orchestrator_patter.Tasks.Compensation.{CompensationEnv}
use saga_orchestrator_patter.Scheduler as Scheduler
use saga_orchestrator_patter.Scheduler.{
  PollEnv, DeadEnv, poll_and_dispatch_orders, check_and_alert_dead_orders,
}
use saga_orchestrator_patter.Orders.Endpoint.{ForceEnv, force_cancel}

-- The replies to one run of a job, whichever task it names.
pub record TaskEnv (T : OrderTable) : Type 0 where
  pub billing : BillingEnv T
  pub inventory : StepEnv
  pub logistics : StepEnv
  pub compensation : CompensationEnv T
  pub gauge_read : Bool

-- Each job by its place in the queue.
abbrev pub take_job : ℕ → List Job → Option (Job × List Job)
take_job n [] = none
take_job zero (job ∷ jobs) = some (job, jobs)
take_job (suc n) (job ∷ jobs) = elim (take_job n jobs) [
  | none ↦ none
  | some (taken, rest) ↦ some (taken, job ∷ rest)
]

module _ {T : OrderTable} where
  abbrev pub call : TaskEnv T → Function → ℕ → ℕ → World T → Outcome × World T
  call env process_billing id retry w = Billing.process_billing env.billing id w
  call env process_inventory id retry w = Inventory.process_inventory env.inventory id w
  call env process_logistic id retry w = Logistics.process_logistic env.logistics id w
  call env compensation id retry w = Compensation.compensation env.compensation id retry w
  call env sync_manual_intervention_gauge id retry w =
      Scheduler.sync_manual_intervention_gauge env.gauge_read w

  abbrev pub execute : TaskEnv T → Job → World T → World T
  execute env job w = (call env job.function job.order_id job.retry_count w).1

-- What happens next: a worker takes a job, a job is dropped, a cron job fires, or an admin cancels an
-- order. A job is dropped when the queue already knows its `_job_id`: the call of `enqueue_job` comes
-- back then, and adds nothing.
pub data Event (T : OrderTable) : Type 0 where
  work : ℕ → TaskEnv T → Event T
  drop : ℕ → Event T
  poll : PollEnv T → Event T
  check : DeadEnv T → Event T
  cancel : ForceEnv T → ℕ → Event T

module _ {T : OrderTable} where
  abbrev pub work_on : TaskEnv T → Option (Job × List Job) → World T → World T
  work_on env none w = w
  work_on env (some (job, rest)) w = execute env job (record w { jobs = rest })

  abbrev pub drop_job : Option (Job × List Job) → World T → World T
  drop_job none w = w
  drop_job (some (job, rest)) w = record w { jobs = rest }

  unfoldable pub handle : Event T → World T → World T
  handle (work n env) w = work_on env (take_job n w.jobs) w
  handle (drop n) w = drop_job (take_job n w.jobs) w
  handle (poll env) w = (poll_and_dispatch_orders env w).1
  handle (check env) w = (check_and_alert_dead_orders env w).1
  handle (cancel env id) w = (force_cancel env id w).1

  unfoldable pub handle_all : List (Event T) → World T → World T
  handle_all [] w = w
  handle_all (e ∷ es) w = handle_all es (handle e w)

  -- Nothing else happens while the event is handled.
  abbrev pub IsAlone : Event T → Type 0
  IsAlone (work n env) =
      ((rows : T.Rows) → env.billing.meanwhile rows ≡ rows)
      × ((rows : T.Rows) → env.compensation.meanwhile rows ≡ rows)
  IsAlone (drop n) = Unit
  IsAlone (poll env) = (rows : T.Rows) → env.meanwhile rows ≡ rows
  IsAlone (check env) = (rows : T.Rows) → env.meanwhile rows ≡ rows
  IsAlone (cancel env id) = (rows : T.Rows) → env.meanwhile rows ≡ rows

  abbrev pub AllAlone : List (Event T) → Type 0
  AllAlone [] = Unit
  AllAlone (e ∷ es) = IsAlone e × AllAlone es
