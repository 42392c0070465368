-- ===== src/Tasks/Inventory/Row.antt =====
-- The columns that the inventory task assigns to the row that it has locked.
use saga_orchestrator_patter.Base.{Bool, ◌&&◌, if◌then◌else◌}
use saga_orchestrator_patter.Models.Enums.{
  SagaStepStatus, is_success, is_paid, is_compensating, completed, compensating,
}
use saga_orchestrator_patter.Models.Order.{Order}

-- The two other steps are done, so a successful reservation completes the order.
abbrev pub is_last : Order → Bool
is_last o = is_success o.logistics_status && is_paid o.billing_status

unfoldable pub inventory_row : SagaStepStatus → Order → Order
inventory_row status o =
    let saved = record o { inventory_status = status } in
    if is_compensating o.global_status
    then saved
    else if is_success status
    then (if is_last saved then record saved { global_status = completed } else saved)
    else record saved { global_status = compensating }
