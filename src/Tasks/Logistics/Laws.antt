-- ===== src/Tasks/Logistics/Laws.antt =====
-- What a run of the logistics task does, on every reply of the outside world.
use mathlib.Core.List.{head?}
use saga_orchestrator_patter.Base.{
  ℕ, ◌≡◌, ◌≢◌, ap, ◌∙◌, true, false, ◌⊎◌, inl, inr, none, some, List, ◌∷◌, arith, if◌then◌else◌,
  Option-cases,
}
use saga_orchestrator_patter.Models.Enums.{
  SagaStepStatus, success, completed, compensating, is_success, is_paid, is_compensating,
}
use saga_orchestrator_patter.Models.Order.{
  Order, flush, flush-billing, flush-logistics, flush-inventory, flush-global, flush-id,
}
use saga_orchestrator_patter.Table.{OrderTable, find-write_self, find-write_other}
use saga_orchestrator_patter.World.Jobs.{Job, step_status, compensation_job}
use saga_orchestrator_patter.World.Effects.{returned, raised, lost, World, commit, rescue}
use saga_orchestrator_patter.Tasks.Env.{StepEnv, IsHealthy}
use saga_orchestrator_patter.Tasks.Logistics.Row.{logistics_row}
use saga_orchestrator_patter.Tasks.Logistics.{process_logistic, write_phase}

-- What the task must do to the row `o` and to the job queue, by the status of its own step.
pub record Settles (status : SagaStepStatus) (o o' : Order) (id : ℕ) (before after : List Job)
    : Type 0 where
  pub own : o'.logistics_status ≡ status
  pub billing : o'.billing_status ≡ o.billing_status
  pub inventory : o'.inventory_status ≡ o.inventory_status
  pub late : o.global_status ≡ compensating → (o'.global_status ≡ compensating) × (after ≡ before)
  pub failing :
      status ≢ success
      → o.global_status ≢ compensating
      → (o'.global_status ≡ compensating) × (after ≡ compensation_job id ∷ before)
  pub last :
      status ≡ success
      → o.global_status ≢ compensating
      → o.inventory_status ≡ success
      → is_paid o.billing_status ≡ true
      → (o'.global_status ≡ completed) × (after ≡ before)
  pub waiting :
      status ≡ success
      → o.global_status ≢ compensating
      → (o.inventory_status ≢ success) ⊎ (is_paid o.billing_status ≡ false)
      → (o'.global_status ≡ o.global_status) × (after ≡ before)

-- The job that the task leaves for the row `o`.
unfoldable pub follow_up : SagaStepStatus → Order → ℕ → List Job → List Job
follow_up status o id jobs =
    if is_compensating o.global_status
    then jobs
    else if is_success status
    then jobs
    else compensation_job id ∷ jobs

module _ (now : ℕ) (status : SagaStepStatus) (o : Order) where
  unfoldable pub written : Order
  written = flush now o (logistics_row status o)

  pub written-id : written.id ≡ o.id
  unfolding written logistics_row
  written-id = ground (arith, flush-id now o (logistics_row status o))

  written-Settles :
      (id : ℕ) (jobs : List Job) → Settles status o written id jobs (follow_up status o id jobs)
  unfolding written logistics_row follow_up
  written-Settles id jobs =
      let new = logistics_row status o in
      ground (
        arith,
        flush-billing now o new,
        flush-logistics now o new,
        flush-inventory now o new,
        flush-global now o new,
      )

module _ {T : OrderTable} (env : StepEnv) (id : ℕ) (w : World T) (o : Order) where
  pub process_logistic_run :
      IsHealthy env
      → T.find id w.rows ≡ some o
      → ((process_logistic env id w).0 ≡ returned)
        × ((process_logistic env id w).1.rows
            ≡ T.write (written env.now (step_status env.response) o) w.rows)
        × ((process_logistic env id w).1.jobs ≡ follow_up (step_status env.response) o id w.jobs)
  unfolding process_logistic write_phase commit rescue written follow_up
  process_logistic_run h f = ground arith

  -- If no call to the database or the broker fails and the order exists, then the logistics task
  -- returns, writes SUCCESS or FAILED to its own column by the answer of its service and keeps
  -- billing and inventory; an order in COMPENSATING stays so with no new job; a failed step moves
  -- any other order to COMPENSATING with one compensation; a successful one completes it if the
  -- other steps are done, and else keeps its global status.
  pub process_logistic-Settles :
      IsHealthy env
      → T.find id w.rows ≡ some o
      → (row : Order) × (T.find id (process_logistic env id w).1.rows ≡ some row)
        × ((process_logistic env id w).0 ≡ returned)
        × Settles (step_status env.response) o row id w.jobs (process_logistic env id w).1.jobs
  process_logistic-Settles h f =
      let status = step_status env.response in
      let (done, rows, jobs) = process_logistic_run h f in
      (
        written env.now status o,
        rw rows (
            find-write_self T o (written env.now status o) id w.rows f
              (written-id env.now status o)),
        done,
        rw jobs (written-Settles env.now status o id w.jobs),
      )

  -- The run writes one whole row, or nothing.
  pub process_logistic_atomic :
      T.find id w.rows ≡ some o
      → ((process_logistic env id w).1.rows ≡ w.rows)
        ⊎ ((process_logistic env id w).1.rows
            ≡ T.write (written env.now (step_status env.response) o) w.rows)
  unfolding process_logistic write_phase commit rescue written
  process_logistic_atomic found = ground arith

module _ {T : OrderTable} (env : StepEnv) (id : ℕ) (w : World T) where
  process_logistic_missing : T.find id w.rows ≡ none → (process_logistic env id w).1.rows ≡ w.rows
  unfolding process_logistic write_phase commit rescue
  process_logistic_missing missing = ground arith

  -- Whatever fails, the logistics task changes no row but that of its order.
  pub process_logistic-other_rows :
      (i : ℕ) → i ≢ id → T.find i (process_logistic env id w).1.rows ≡ T.find i w.rows
  process_logistic-other_rows i other = elim (Option-cases (T.find id w.rows)) [
    | inl missing ↦ ap (T.find i) (process_logistic_missing missing)
    | inr (o, found) ↦ elim (process_logistic_atomic env id w o found) [
      | inl kept ↦ ap (T.find i) kept
      | inr wrote ↦
          let row = written env.now (step_status env.response) o in
          ap (T.find i) wrote
          ∙ find-write_other T row i w.rows (λ e.
            other (e ∙ written-id env.now (step_status env.response) o ∙ T.find_id id _ o found))
    ]
  ]

  -- If the logistics task raises, and not because the connection was lost after a commit, the
  -- table is as before.
  pub process_logistic_rolls_back :
      (process_logistic env id w).0 ≡ raised
      → env.committed ≢ lost
      → (process_logistic env id w).1.rows ≡ w.rows
  unfolding process_logistic write_phase commit rescue
  process_logistic_rolls_back h l = ground arith

  -- If the logistics task raises and the broker takes the last call, then the job that it enqueued
  -- last is a compensation of its order.
  pub process_logistic_rescued :
      (process_logistic env id w).0 ≡ raised
      → env.rescue_sent ≡ true
      → head? (process_logistic env id w).1.jobs ≡ some (compensation_job id)
  unfolding process_logistic rescue
  process_logistic_rescued h sent = ground arith
