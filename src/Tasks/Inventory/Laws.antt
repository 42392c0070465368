-- ===== src/Tasks/Inventory/Laws.antt =====
-- What a run of the inventory task does, on every reply of the outside world.
use mathlib.Core.List.{head?}
use saga_orchestrator_patter.Base.{
  ℕ, ◌≡◌, ◌≢◌, ap, ◌∙◌, true, false, ◌⊎◌, inl, inr, none, some, List, ◌∷◌, arith, if◌then◌else◌,
  Option-cases,
}
use saga_orchestrator_patter.Models.Enums.{
  SagaStepStatus, success, completed, compensating, is_success, is_paid, is_compensating,
}
use saga_orchestrator_patter.Models.Order.{
  Order, flush, flush-billing, flush-inventory, flush-logistics, flush-global, flush-id,
}
use saga_orchestrator_patter.Table.{OrderTable, find-write_self, find-write_other}
use saga_orchestrator_patter.World.Jobs.{Job, step_status, compensation_job}
use saga_orchestrator_patter.World.Effects.{returned, raised, lost, World, commit, rescue}
use saga_orchestrator_patter.Tasks.Env.{StepEnv, IsHealthy}
use saga_orchestrator_patter.Tasks.Inventory.Row.{inventory_row}
use saga_orchestrator_patter.Tasks.Inventory.{process_inventory, write_phase}

-- What the task must do to the row `o` and to the job queue, by the status of its own step.
pub record Settles (status : SagaStepStatus) (o o' : Order) (id : ℕ) (before after : List Job)
    : Type 0 where
  pub own : o'.inventory_status ≡ status
  pub billing : o'.billing_status ≡ o.billing_status
  pub logistics : o'.logistics_status ≡ o.logistics_status
  pub late : o.global_status ≡ compensating → (o'.global_status ≡ compensating) × (after ≡ before)
  pub failing :
      status ≢ success
      → o.global_status ≢ compensating
      → (o'.global_status ≡ compensating) × (after ≡ compensation_job id ∷ before)
  pub last :
      status ≡ success
      → o.global_status ≢ compensating
      → o.logistics_status ≡ success
      → is_paid o.billing_status ≡ true
      → (o'.global_status ≡ completed) × (after ≡ before)
  pub waiting :
      status ≡ success
      → o.global_status ≢ compensating
      → (o.logistics_status ≢ success) ⊎ (is_paid o.billing_status ≡ false)
      → (o'.global_status ≡ o.global_status) × (after ≡ before)

-- The job that the task leaves for the row `o`.
unfoldable pub follow_up : SagaStepStatus → Order → ℕ → List Job → List Job
follow_up status o id jobs =
    if is_compensating o.global_status
    then jobs
    else if is_success status
    then jobs
    else compensation_job id ∷ jobs

module _ (now : ℕ) (status : SagaStepStatus) (o : Order) where
  unfoldable pub written : Order
  written = flush now o (inventory_row status o)

  pub written-id : written.id ≡ o.id
  unfolding written inventory_row
  written-id = ground (arith, flush-id now o (inventory_row status o))

  written-Settles :
      (id : ℕ) (jobs : List Job) → Settles status o written id jobs (follow_up status o id jobs)
  unfolding written inventory_row follow_up
  written-Settles id jobs =
      let new = inventory_row status o in
      ground (
        arith,
        flush-billing now o new,
        flush-inventory now o new,
        flush-logistics now o new,
        flush-global now o new,
      )

module _ {T : OrderTable} (env : StepEnv) (id : ℕ) (w : World T) (o : Order) where
  pub process_inventory_run :
      IsHealthy env
      → T.find id w.rows ≡ some o
      → ((process_inventory env id w).0 ≡ returned)
        × ((process_inventory env id w).1.rows
            ≡ T.write (written env.now (step_status env.response) o) w.rows)
        × ((process_inventory env id w).1.jobs ≡ follow_up (step_status env.response) o id w.jobs)
  unfolding process_inventory write_phase commit rescue written follow_up
  process_inventory_run h f = ground arith

  -- If no call to the database or the broker fails and the order exists, then the inventory task
  -- returns, writes SUCCESS or FAILED to its own column by the answer of its service and keeps
  -- billing and logistics; an order in COMPENSATING stays so with no new job; a failed step moves
  -- any other order to COMPENSATING with one compensation; a successful one completes it if the
  -- other steps are done, and else keeps its global status.
  pub process_inventory-Settles :
      IsHealthy env
      → T.find id w.rows ≡ some o
      → (row : Order) × (T.find id (process_inventory env id w).1.rows ≡ some row)
        × ((process_inventory env id w).0 ≡ returned)
        × Settles (step_status env.response) o row id w.jobs (process_inventory env id w).1.jobs
  process_inventory-Settles h f =
      let status = step_status env.response in
      let (done, rows, jobs) = process_inventory_run h f in
      (
        written env.now status o,
        rw rows (
            find-write_self T o (written env.now status o) id w.rows f
              (written-id env.now status o)),
        done,
        rw jobs (written-Settles env.now status o id w.jobs),
      )

  -- The run writes one whole row, or nothing.
  pub process_inventory_atomic :
      T.find id w.rows ≡ some o
      → ((process_inventory env id w).1.rows ≡ w.rows)
        ⊎ ((process_inventory env id w).1.rows
            ≡ T.write (written env.now (step_status env.response) o) w.rows)
  unfolding process_inventory write_phase commit rescue written
  process_inventory_atomic found = ground arith

module _ {T : OrderTable} (env : StepEnv) (id : ℕ) (w : World T) where
  process_inventory_missing : T.find id w.rows ≡ none → (process_inventory env id w).1.rows ≡ w.rows
  unfolding process_inventory write_phase commit rescue
  process_inventory_missing missing = ground arith

  -- Whatever fails, the inventory task changes no row but that of its order.
  pub process_inventory-other_rows :
      (i : ℕ) → i ≢ id → T.find i (process_inventory env id w).1.rows ≡ T.find i w.rows
  process_inventory-other_rows i other = elim (Option-cases (T.find id w.rows)) [
    | inl missing ↦ ap (T.find i) (process_inventory_missing missing)
    | inr (o, found) ↦ elim (process_inventory_atomic env id w o found) [
      | inl kept ↦ ap (T.find i) kept
      | inr wrote ↦
          let row = written env.now (step_status env.response) o in
          ap (T.find i) wrote
          ∙ find-write_other T row i w.rows (λ e.
            other (e ∙ written-id env.now (step_status env.response) o ∙ T.find_id id _ o found))
    ]
  ]

  -- If the inventory task raises, and not because the connection was lost after a commit, the
  -- table is as before.
  pub process_inventory_rolls_back :
      (process_inventory env id w).0 ≡ raised
      → env.committed ≢ lost
      → (process_inventory env id w).1.rows ≡ w.rows
  unfolding process_inventory write_phase commit rescue
  process_inventory_rolls_back h l = ground arith

  -- If the inventory task raises and the broker takes the last call, then the job that it enqueued
  -- last is a compensation of its order.
  pub process_inventory_rescued :
      (process_inventory env id w).0 ≡ raised
      → env.rescue_sent ≡ true
      → head? (process_inventory env id w).1.jobs ≡ some (compensation_job id)
  unfolding process_inventory rescue
  process_inventory_rescued h sent = ground arith
