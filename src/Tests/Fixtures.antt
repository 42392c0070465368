-- ===== src/Tests/Fixtures.antt =====
-- A table with two orders, and a world around it.
use saga_orchestrator_patter.Base.{ℕ, none, [], ◌∷◌, refl, true}
use saga_orchestrator_patter.Models.Enums.{
  SagaStepStatus, OrderGlobalStatus, PaymentWay, pending, success, skipped, prepayment, postpayment,
  processing, completed, compensating,
}
use saga_orchestrator_patter.Models.Order.{Order}
use saga_orchestrator_patter.Table.RowList.{row_list}
use saga_orchestrator_patter.World.Jobs.{HttpResult}
use saga_orchestrator_patter.World.Metrics.{Metrics}
use saga_orchestrator_patter.World.Effects.{World, Commit, committed}
use saga_orchestrator_patter.Tasks.Billing.{BillingEnv}
use saga_orchestrator_patter.Tasks.Env.{StepEnv}
use saga_orchestrator_patter.Tasks.Compensation.{CompensationEnv}

abbrev pub order_with :
    ℕ → PaymentWay → SagaStepStatus → SagaStepStatus → SagaStepStatus → OrderGlobalStatus → Order
order_with id way billing inventory logistics global = record {
  id = id;
  buyer_id = none;
  good_id = 1;
  idempotency_key = "k";
  billing_status = billing;
  inventory_status = inventory;
  logistics_status = logistics;
  global_status = global;
  payment_type = way;
  quantity = 1;
  created_at = 100;
  updated_at = 100;
  shipping_detail = none;
}

abbrev pub placed : Order
placed = order_with 7 prepayment pending pending pending processing

abbrev pub billed : Order
billed = order_with 7 prepayment success pending pending processing

abbrev pub postpaid : Order
postpaid = order_with 7 postpayment skipped pending pending processing

abbrev pub half_done : Order
half_done = order_with 7 prepayment success SagaStepStatus.failed success compensating

abbrev pub neighbour : Order
neighbour = order_with 8 postpayment skipped success success completed

abbrev pub no_metrics : Metrics
no_metrics = record { executions = []; steps = []; durations = []; stuck_current = 0 }

-- The world whose table holds one order.
abbrev pub world_of : Order → World row_list
world_of o = record {
  rows = (o ∷ [], (refl, tt));
  jobs = [];
  posts = [];
  metrics = no_metrics;
  alerts = [];
}

-- The world whose table holds the placed order and its neighbour.
abbrev pub two_orders : World row_list
two_orders = record (world_of placed) { rows = (placed ∷ neighbour ∷ [], (refl, (refl, tt))) }

-- The charge is answered by `r`, and everything else works until the commit.
abbrev pub billing_env : HttpResult → Commit → BillingEnv row_list
billing_env r c = record {
  read = true;
  response = r;
  meanwhile = λ rows. rows;
  reread = true;
  inventory_sent = true;
  logistic_sent = true;
  compensation_sent = true;
  committed = c;
  now = 110;
  rescue_sent = true;
}

abbrev pub step_env : HttpResult → Commit → StepEnv
step_env r c = record {
  response = r;
  read = true;
  compensation_sent = true;
  committed = c;
  now = 120;
  rescue_sent = true;
}

-- Every rollback is answered by `r`.
abbrev pub compensation_env : HttpResult → CompensationEnv row_list
compensation_env r = record {
  read = true;
  began = committed;
  started_at = 130;
  replies = record { billing = r; inventory = r; logistics = r };
  meanwhile = λ rows. rows;
  reread = true;
  webhook = true;
  ended = committed;
  finished_at = 140;
  retry_sent = true;
}
