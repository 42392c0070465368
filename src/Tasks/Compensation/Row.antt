-- ===== src/Tasks/Compensation/Row.antt =====
-- What a compensation reads from the row that it has locked, and the columns that it assigns.
use saga_orchestrator_patter.Base.{ℕ, Bool, ◌&&◌, ◌||◌, leb, if◌then◌else◌}
use saga_orchestrator_patter.Models.Enums.{
  SagaStepStatus, OrderGlobalStatus, compensated, compensating, manual_intervention_required,
  is_pending, is_success,
}
use saga_orchestrator_patter.Models.Order.{Order}
use saga_orchestrator_patter.World.Jobs.{HttpResult, step_status}

-- `billing_refund`, `inventory_release`, `logistics_cancel`
pub record Undo : Type 0 where
  pub billing : Bool
  pub inventory : Bool
  pub logistics : Bool

-- What the three rollback endpoints answer, if they are called.
pub record Replies : Type 0 where
  pub billing : HttpResult
  pub inventory : HttpResult
  pub logistics : HttpResult

abbrev pub has_pending : Order → Bool
has_pending o =
    is_pending o.billing_status || is_pending o.inventory_status || is_pending o.logistics_status

abbrev pub undo_of : Order → Undo
undo_of o = record {
  billing = is_success o.billing_status;
  inventory = is_success o.inventory_status;
  logistics = is_success o.logistics_status;
}

abbrev pub begin_row : ℕ → Order → Order
begin_row now o = record o { global_status = compensating; updated_at = now }

-- `results.get(service)` holds for a call that was made and came back with 200.
unfoldable pub undone : Bool → HttpResult → SagaStepStatus → SagaStepStatus
undone wanted reply status =
    if wanted && is_success (step_status reply) then compensated else status

unfoldable pub end_row : Undo → Replies → Order → Order
end_row u r o = record o {
  billing_status = undone u.billing r.billing o.billing_status;
  inventory_status = undone u.inventory r.inventory o.inventory_status;
  logistics_status = undone u.logistics r.logistics o.logistics_status;
}

-- `SagaStepStatus.SUCCESS in statuses`
abbrev pub is_left : Order → Bool
is_left o =
    is_success o.billing_status || is_success o.inventory_status || is_success o.logistics_status

abbrev pub cancelled_row : Order → Order
cancelled_row o = record o { global_status = OrderGlobalStatus.cancelled }

abbrev pub manual_row : Order → Order
manual_row o = record o { global_status = manual_intervention_required }

-- The row that the last session commits: cancelled if nothing is left to undo, handed to an admin
-- after the fifth attempt, and else as it is.
unfoldable pub close_row : ℕ → Order → Order
close_row retry o = if is_left o then (if leb 4 retry then manual_row o else o) else cancelled_row o
