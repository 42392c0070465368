-- ===== src/Tasks/Env.antt =====
-- The replies of the outside world to one run of the inventory or of the logistics task: the
-- response of the service, whether the calls to the database and to the broker come back, and the
-- time of the flush.
use saga_orchestrator_patter.Base.{ℕ, Bool, true, ◌≡◌}
use saga_orchestrator_patter.World.Jobs.{HttpResult}
use saga_orchestrator_patter.World.Effects.{Commit, committed}

pub record StepEnv : Type 0 where
  pub response : HttpResult
  pub read : Bool
  pub compensation_sent : Bool
  pub committed : Commit
  pub now : ℕ
  pub rescue_sent : Bool

-- No call to the database or the broker fails.
pub record IsHealthy (env : StepEnv) : Type 0 where
  pub read : env.read ≡ true
  pub compensation_sent : env.compensation_sent ≡ true
  pub committed : env.committed ≡ committed
