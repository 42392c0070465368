-- ===== src/Worker/Errors.antt =====
-- What every task guarantees when something fails, whichever task a job names.
use mathlib.Core.List.{head?}
use saga_orchestrator_patter.Base.{ℕ, ◌≡◌, ◌≢◌, ap, ◌∙◌, Bool, true, false, some, arith}
use saga_orchestrator_patter.Table.{OrderTable}
use saga_orchestrator_patter.World.Jobs.{
  Function, process_billing, process_inventory, process_logistic, compensation,
  sync_manual_intervention_gauge, compensation_job,
}
use saga_orchestrator_patter.World.Effects.{raised, Commit, committed, lost, World}
use saga_orchestrator_patter.Tasks.Compensation.Rows.{compensation-other_rows}
use saga_orchestrator_patter.Tasks.Billing.Safety.{
  process_billing-other_rows, process_billing_rolls_back, process_billing_rescued, left_rows_alone,
}
use saga_orchestrator_patter.Tasks.Inventory.Laws.{
  process_inventory-other_rows, process_inventory_rolls_back, process_inventory_rescued,
}
use saga_orchestrator_patter.Tasks.Logistics.Laws.{
  process_logistic-other_rows, process_logistic_rolls_back, process_logistic_rescued,
}
use saga_orchestrator_patter.Scheduler.{sync_manual_intervention_gauge as sync_gauge}
use saga_orchestrator_patter.Worker.Forward.{same_forward}
use saga_orchestrator_patter.Worker.{TaskEnv, call}

-- The last commit of a task, and its last call of the broker.
abbrev pub last_commit : {T : OrderTable} → TaskEnv T → Function → Commit
last_commit env process_billing = env.billing.committed
last_commit env process_inventory = env.inventory.committed
last_commit env process_logistic = env.logistics.committed
last_commit env compensation = env.compensation.ended
last_commit env sync_manual_intervention_gauge = committed

abbrev pub rescue_sent : {T : OrderTable} → TaskEnv T → Function → Bool
rescue_sent env process_billing = env.billing.rescue_sent
rescue_sent env process_inventory = env.inventory.rescue_sent
rescue_sent env process_logistic = env.logistics.rescue_sent
rescue_sent env _ = false

module _ {T : OrderTable} (env : TaskEnv T) (id retry : ℕ) (w : World T) where
  -- If billing, inventory or logistics raises and the broker takes the last call, then the job
  -- that it enqueued last is a compensation of its order.
  pub call_rescued :
      (f : Function)
      → (call env f id retry w).0 ≡ raised
      → rescue_sent env f ≡ true
      → head? (call env f id retry w).1.jobs ≡ some (compensation_job id)
  call_rescued process_billing failed sent = process_billing_rescued env.billing id w failed sent
  call_rescued process_inventory failed sent =
      process_inventory_rescued env.inventory id w failed sent
  call_rescued process_logistic failed sent =
      process_logistic_rescued env.logistics id w failed sent
  call_rescued compensation failed sent = cc
  call_rescued sync_manual_intervention_gauge failed sent = cc

  module _ (quiet : (rows : T.Rows) → env.billing.meanwhile rows ≡ rows)
      (quiet' : (rows : T.Rows) → env.compensation.meanwhile rows ≡ rows) where
    -- If billing, inventory or logistics raises, not because the connection was lost after its
    -- commit, and nothing else is committed meanwhile, the table is as before.
    call_rolls_back :
        (f : Function)
        → same_forward f f ≡ true
        → (call env f id retry w).0 ≡ raised
        → last_commit env f ≢ lost
        → (call env f id retry w).1.rows ≡ w.rows
    call_rolls_back process_billing _ failed kept =
        process_billing_rolls_back env.billing id w failed kept
        ∙ left_rows_alone env.billing id w quiet
    call_rolls_back process_inventory _ failed kept =
        process_inventory_rolls_back env.inventory id w failed kept
    call_rolls_back process_logistic _ failed kept =
        process_logistic_rolls_back env.logistics id w failed kept
    call_rolls_back compensation other failed kept = cc
    call_rolls_back sync_manual_intervention_gauge other failed kept = cc

    -- Whatever fails, a job of a worker changes no row but that of its order, if nothing else is
    -- committed meanwhile.
    pub call-other_rows :
        (f : Function) (i : ℕ) → i ≢ id → T.find i (call env f id retry w).1.rows ≡ T.find i w.rows
    unfolding sync_gauge
    call-other_rows process_billing i other =
        process_billing-other_rows env.billing id w i other
        ∙ ap (T.find i) (left_rows_alone env.billing id w quiet)
    call-other_rows process_inventory i other =
        process_inventory-other_rows env.inventory id w i other
    call-other_rows process_logistic i other =
        process_logistic-other_rows env.logistics id w i other
    call-other_rows compensation i other =
        compensation-other_rows env.compensation id retry quiet' w i other
    call-other_rows sync_manual_intervention_gauge i other = ground arith
