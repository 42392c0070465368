-- ===== src/Tasks/Inventory.antt =====
-- src/workers/saga_tasks/inventory.py: reserve the goods, and complete or compensate the order.
pub mod Row
pub mod Laws
use saga_orchestrator_patter.Base.{ℕ, Bool, true, false, Option, none, some, if◌then◌else◌}
use saga_orchestrator_patter.Models.Enums.{SagaStepStatus, is_success, is_compensating, completed}
use saga_orchestrator_patter.Models.Order.{Order}
use saga_orchestrator_patter.Table.{OrderTable}
use saga_orchestrator_patter.World.Jobs.{Service, execute, step_status, compensation_job}
use saga_orchestrator_patter.World.Metrics.{
  Step, record_step_status, observe_step_duration, record_final_status_transition,
}
use saga_orchestrator_patter.World.Effects.{
  Outcome, returned, raised, World, post, enqueue, measure, commit, rescue,
}
use saga_orchestrator_patter.Tasks.Env.{StepEnv}
use saga_orchestrator_patter.Tasks.Inventory.Row.{is_last, inventory_row}

module _ {T : OrderTable} where
  reserve : StepEnv → ℕ → World T → World T
  reserve env id w =
      measure (record_step_status Step.inventory (step_status env.response))
        (post (record { service = Service.inventory; order_id = id; action = execute }) w)

  -- The branches of the write phase, with the row `new` that they commit.
  save : StepEnv → ℕ → SagaStepStatus → Order → World T → Outcome × World T
  save env id status o w =
      let new = inventory_row status o in
      if is_compensating o.global_status
      then commit env.committed env.now o new w
      else if is_success status
      then commit env.committed env.now o new (
          if is_last o
          then measure (record_final_status_transition o.global_status completed) w
          else w)
      else if env.compensation_sent
      then commit env.committed env.now o new (enqueue true (compensation_job id) w)
      else (raised, w)

  write_found : StepEnv → ℕ → SagaStepStatus → Option Order → World T → Outcome × World T
  unfolding save
  write_found env id status none w = (returned, w)
  write_found env id status (some o) w = save env id status o w

  unfoldable pub write_phase : StepEnv → ℕ → SagaStepStatus → World T → Outcome × World T
  unfolding write_found
  write_phase env id status w =
      if env.read then write_found env id status (T.find id w.rows) w else (raised, w)

  inventory_body : StepEnv → ℕ → World T → Outcome × World T
  unfolding reserve
  inventory_body env id w = write_phase env id (step_status env.response) (reserve env id w)

  observed : Outcome × World T → Outcome × World T
  observed (out, w) = (out, measure (observe_step_duration Step.inventory) w)

  unfoldable pub process_inventory : StepEnv → ℕ → World T → Outcome × World T
  unfolding inventory_body observed
  process_inventory env id w = rescue env.rescue_sent id (observed (inventory_body env id w))
