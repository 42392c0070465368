-- ===== src/Tasks/Compensation/Written.antt =====
-- The row that the last session of compensation (src/workers/saga_tasks/compensation.py) writes.
use saga_orchestrator_patter.Base.{ℕ, ◌≡◌, arith, leb, if◌then◌else◌, ◌&&◌}
use saga_orchestrator_patter.Models.Enums.{
  SagaStepStatus, OrderGlobalStatus, compensated, manual_intervention_required, is_success,
}
use saga_orchestrator_patter.Models.Order.{
  Order, flush, flush-billing, flush-inventory, flush-logistics, flush-global, flush-id,
}
use saga_orchestrator_patter.World.Jobs.{HttpResult, step_status}
use saga_orchestrator_patter.Tasks.Compensation.Row.{
  undo_of, begin_row, Replies, undone, end_row, is_left, close_row,
}

module _ (now : ℕ) (retry : ℕ) (o : Order) (r : Replies) (o' : Order) where
  -- The row that the last session commits for `o'`, after the first has read `o`.
  unfoldable pub settled : Order
  settled = end_row (undo_of o) r o'

  unfoldable pub closed : Order
  unfolding settled close_row
  closed = close_row retry settled

  unfoldable pub written : Order
  written = flush now o' closed

  pub written-id : written.id ≡ o'.id
  unfolding written closed end_row undone
  written-id = ground (arith, flush-id now o' closed)

unfoldable pub written_begin : ℕ → Order → Order
written_begin now o = flush now o (begin_row now o)

-- A step that succeeded and whose rollback came back with 200 is compensated; any other keeps the
-- status that the row has by then.
abbrev pub rolled_back_status : SagaStepStatus → HttpResult → SagaStepStatus → SagaStepStatus
rolled_back_status before reply now =
    if is_success before && is_success (step_status reply) then compensated else now

module _ (now retry : ℕ) (o : Order) (r : Replies) (o' : Order) where
  pub written-billing :
      (written now retry o r o').billing_status
      ≡ rolled_back_status o.billing_status r.billing o'.billing_status
  unfolding written closed end_row undone
  written-billing = ground (arith, flush-billing now o' (closed now retry o r o'))

  pub written-inventory :
      (written now retry o r o').inventory_status
      ≡ rolled_back_status o.inventory_status r.inventory o'.inventory_status
  unfolding written closed end_row undone
  written-inventory = ground (arith, flush-inventory now o' (closed now retry o r o'))

  pub written-logistics :
      (written now retry o r o').logistics_status
      ≡ rolled_back_status o.logistics_status r.logistics o'.logistics_status
  unfolding written closed end_row undone
  written-logistics = ground (arith, flush-logistics now o' (closed now retry o r o'))

  pub settled-left : is_left (settled now retry o r o') ≡ is_left (written now retry o r o')
  unfolding settled end_row undone
  settled-left = rw (written-billing, written-inventory, written-logistics)

  pub written-global : (written now retry o r o').global_status ≡ (
      if is_left (settled now retry o r o')
      then (if leb 4 retry then manual_intervention_required else o'.global_status)
      else OrderGlobalStatus.cancelled)
  unfolding written closed end_row undone
  written-global = ground (arith, flush-global now o' (closed now retry o r o'))
