-- ===== src/World/Metrics.antt =====
-- src/workers/metrics.py: the counters as the list of their increments, the latest first, the
-- histogram as the list of the steps observed, and the gauge as its value.
use saga_orchestrator_patter.Base.{ℕ, List, ◌∷◌, if◌then◌else◌}
use saga_orchestrator_patter.Models.Enums.{
  SagaStepStatus, OrderGlobalStatus, completed, same_status, manual_intervention_required,
}

-- The label `status` of `saga_execution_total`.
pub data Execution : Type 0 where
  success compensated stuck compensation_attempted : Execution

-- The label `step`.
pub data Step : Type 0 where
  billing inventory logistics compensation : Step

pub record Metrics : Type 0 where
  pub executions : List Execution
  pub steps : List (Step × SagaStepStatus)
  pub durations : List Step
  pub stuck_current : ℕ

unfoldable pub record_execution : Execution → Metrics → Metrics
record_execution e m = record m { executions = e ∷ m.executions }

unfoldable pub record_step_status : Step → SagaStepStatus → Metrics → Metrics
record_step_status step status m = record m { steps = (step, status) ∷ m.steps }

unfoldable pub observe_step_duration : Step → Metrics → Metrics
observe_step_duration step m = record m { durations = step ∷ m.durations }

final_status : OrderGlobalStatus → Metrics → Metrics
unfolding record_execution
final_status completed m = record_execution success m
final_status OrderGlobalStatus.cancelled m = record_execution compensated m
final_status manual_intervention_required m = record_execution stuck m
final_status _ m = m

unfoldable pub record_final_status_transition :
    OrderGlobalStatus → OrderGlobalStatus → Metrics → Metrics
unfolding final_status
record_final_status_transition previous current m =
    if same_status previous current then m else final_status current m
