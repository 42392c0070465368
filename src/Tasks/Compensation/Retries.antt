-- ===== src/Tasks/Compensation/Retries.antt =====
-- The soft retries of a compensation, followed until an attempt enqueues none.
use saga_orchestrator_patter.Base.{
  ℕ, suc, zero, ◌+◌, Option, none, some, length, ◌==◌, if◌then◌else◌,
}
use saga_orchestrator_patter.Table.{OrderTable}
use saga_orchestrator_patter.World.Effects.{World}
use saga_orchestrator_patter.Tasks.Compensation.{CompensationEnv, compensation}

module _ {T : OrderTable} (env : ℕ → CompensationEnv T) (between : ℕ → T.Rows → T.Rows)
    (id : ℕ) where
  -- The attempt with the number `retry`, after whatever was committed since the one before.
  attempt : ℕ → World T → World T
  attempt retry w = (compensation (env retry) id retry (record w { rows = between retry w.rows })).1

  -- Runs the attempts from `retry` on; the result is the number of the last one.
  unfoldable pub follow_retries : ℕ → ℕ → World T → Option (ℕ × World T)
  unfolding attempt
  follow_retries zero retry w = none
  follow_retries (suc fuel) retry w =
      let w' = attempt retry w in
      let rest = follow_retries fuel (retry + 1) w' in
      if length w'.jobs == length w.jobs then some (retry, w') else rest
