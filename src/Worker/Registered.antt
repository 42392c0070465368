-- ===== src/Worker/Registered.antt =====
-- Every job in the queue can be run: the worker that listens to its queue has registered its
-- function.
use saga_orchestrator_patter.Base.{
  ℕ, zero, suc, ◌≡◌, ap, ◌∙◌, Bool, true, false, inl, inr, some, List, ◌∷◌, [], arith, any, not,
  if◌then◌else◌, Option-cases,
}
use saga_orchestrator_patter.Models.Order.{Order}
use saga_orchestrator_patter.Table.{OrderTable}
use saga_orchestrator_patter.World.Jobs.{
  Function, Job, Queue, saga_tasks, saga_scheduler, process_billing, process_inventory,
  process_logistic, compensation, sync_manual_intervention_gauge,
}
use saga_orchestrator_patter.World.Effects.{World, commit, rescue}
use saga_orchestrator_patter.Tasks.Billing as Billing
use saga_orchestrator_patter.Tasks.Billing.Row.{attempt}
use saga_orchestrator_patter.Tasks.Inventory as Inventory
use saga_orchestrator_patter.Tasks.Logistics as Logistics
use saga_orchestrator_patter.Tasks.Compensation.Laws.{compensation_retry_bound}
use saga_orchestrator_patter.Scheduler.{
  PollEnv, dispatch, poll_and_dispatch_orders, is_stuck,
  sync_manual_intervention_gauge as sync_gauge,
}
use saga_orchestrator_patter.Orders.Endpoint.{force_cancel}
use saga_orchestrator_patter.Worker.Cron.{check-jobs}
use saga_orchestrator_patter.Worker.{
  TaskEnv, take_job, call, Event, work, drop, poll, check, cancel, handle, handle_all,
}

-- `functions` of `SagaWorkerSettings` and of `SchedulerWorkerSettings`, by their queue. The two cron
-- jobs of the scheduler are never enqueued by name.
abbrev pub is_registered : Queue → Function → Bool
is_registered saga_tasks process_billing = true
is_registered saga_tasks process_inventory = true
is_registered saga_tasks process_logistic = true
is_registered saga_tasks compensation = true
is_registered saga_scheduler sync_manual_intervention_gauge = true
is_registered _ _ = false

-- The jobs that no worker could run.
abbrev pub has_unknown : List Job → Bool
has_unknown = any (λ job. not (is_registered job.queue job.function))

take-known :
    (n : ℕ) (jobs : List Job) (job : Job) (rest : List Job)
    → take_job n jobs ≡ some (job, rest)
    → has_unknown jobs ≡ false
    → has_unknown rest ≡ false
take-known n [] job rest h known = absurd (ground arith)
take-known zero (j ∷ jobs) job rest h known = ground arith
take-known (suc n) (j ∷ jobs) job rest h known = elim (Option-cases (take_job n jobs)) [
  | inl missing ↦ absurd (ground arith)
  | inr ((taken, left), found) ↦ ground (arith, found, take-known n jobs taken left found)
]

module _ {T : OrderTable} (env : TaskEnv T) (id retry : ℕ) (w : World T) where
  call-known :
      (f : Function)
      → has_unknown w.jobs ≡ false
      → has_unknown (call env f id retry w).1.jobs ≡ false
  unfolding Billing.process_billing Billing.write_phase Inventory.process_inventory
      Inventory.write_phase Logistics.process_logistic Logistics.write_phase commit rescue attempt
      sync_gauge
  call-known process_billing known = ground arith
  call-known process_inventory known = ground arith
  call-known process_logistic known = ground arith
  call-known compensation known =
      ground (arith, compensation_retry_bound env.compensation id retry w)
  call-known sync_manual_intervention_gauge known = ground arith

module _ {T : OrderTable} (env : PollEnv T) where
  dispatch-known :
      (os : List Order) (w : World T)
      → has_unknown w.jobs ≡ false
      → has_unknown (dispatch env os w).jobs ≡ false
  unfolding dispatch
  dispatch-known [] w known = known
  dispatch-known (o ∷ os) w known = dispatch-known os _ (ground arith)

module _ {T : OrderTable} where
  handle-known :
      (e : Event T) (w : World T)
      → has_unknown w.jobs ≡ false
      → has_unknown (handle e w).jobs ≡ false
  unfolding handle poll_and_dispatch_orders sync_gauge force_cancel
  handle-known (work n env) w known = elim (Option-cases (take_job n w.jobs)) [
    | inl empty ↦ rw empty known
    | inr ((job, rest), taken) ↦ rw taken (
        call-known env job.order_id job.retry_count (record w { jobs = rest }) job.function
          (take-known n w.jobs job rest taken known))
  ]
  handle-known (drop n) w known = elim (Option-cases (take_job n w.jobs)) [
    | inl empty ↦ rw empty known
    | inr ((job, rest), taken) ↦ rw taken (take-known n w.jobs job rest taken known)
  ]
  handle-known (poll env) w known =
      let stuck = if env.fetched then T.select (is_stuck env.now) w.rows else [] in
      ground (arith, dispatch-known env stuck w)
  handle-known (check env) w known = ap has_unknown (check-jobs env w) ∙ known
  handle-known (cancel env id) w known = ground arith

  -- If every job in the queues names a function that the worker of its queue has registered, then
  -- it is so after any list of events.
  pub handle_all-known :
      (es : List (Event T)) (w : World T)
      → has_unknown w.jobs ≡ false
      → has_unknown (handle_all es w).jobs ≡ false
  unfolding handle_all
  handle_all-known [] w known = known
  handle_all-known (e ∷ es) w known = handle_all-known es (handle e w) (handle-known e w known)
