-- ===== src/Tasks/Billing/Row.antt =====
-- What billing decides: the three variables that the call to the service sets, and the columns
-- that the second session assigns.
use saga_orchestrator_patter.Base.{Bool, true, false, ◌||◌, if◌then◌else◌}
use saga_orchestrator_patter.Models.Enums.{
  SagaStepStatus, skipped, PaymentWay, prepayment, postpayment, is_success, compensating,
}
use saga_orchestrator_patter.Models.Order.{Order}
use saga_orchestrator_patter.World.Jobs.{HttpResult, step_status}

pub record Attempt : Type 0 where
  pub billing_success : Bool
  pub billing_skip : Bool
  pub billing_status : SagaStepStatus

-- A postpaid order is skipped; else the status follows from the response.
unfoldable pub attempt : PaymentWay → HttpResult → Attempt
attempt postpayment r = record {
  billing_success = false;
  billing_skip = true;
  billing_status = skipped;
}
attempt prepayment r = record {
  billing_success = is_success (step_status r);
  billing_skip = false;
  billing_status = step_status r;
}

abbrev pub posts_charge : PaymentWay → Bool
posts_charge postpayment = false
posts_charge prepayment = true

abbrev pub proceeds : Attempt → Bool
proceeds a = a.billing_skip || a.billing_success

unfoldable pub billing_row : Attempt → Order → Order
billing_row a o =
    let o' = record o { billing_status = a.billing_status } in
    if proceeds a then o' else record o' {
      inventory_status = SagaStepStatus.cancelled;
      logistics_status = SagaStepStatus.cancelled;
      global_status = compensating;
    }
