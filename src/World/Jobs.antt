-- ===== src/World/Jobs.antt =====
-- The calls that leave the program: `redis.enqueue_job` (each call site of src/workers and of
-- src/services/order.py), `http_client.post`, and the replies to them.
use saga_orchestrator_patter.Base.{ℕ, ◌==◌, if◌then◌else◌}
use saga_orchestrator_patter.Models.Enums.{SagaStepStatus, failed, success}

-- The registered functions of `SagaWorkerSettings` and the one of `SchedulerWorkerSettings` that
-- the API enqueues.
pub data Function : Type 0 where
  process_billing process_inventory process_logistic compensation : Function
  sync_manual_intervention_gauge : Function

pub data Queue : Type 0 where
  saga_tasks saga_scheduler : Queue

-- The f-strings of `_job_id`, each with what it is made from.
pub data JobId : Type 0 where
  billing : ℕ → JobId
  inventory : ℕ → JobId
  logistic : ℕ → JobId
  compensation : ℕ → JobId
  compensation_at : ℕ → ℕ → JobId
  gauge_at : ℕ → JobId

pub record Job : Type 0 where
  pub function : Function
  pub order_id : ℕ
  pub retry_count : ℕ
  pub job_id : JobId
  pub queue : Queue
  pub defer_by : ℕ

abbrev pub saga_job : Function → ℕ → JobId → Job
saga_job f id key = record {
  function = f;
  order_id = id;
  retry_count = 0;
  job_id = key;
  queue = saga_tasks;
  defer_by = 0;
}

abbrev pub billing_job : ℕ → Job
billing_job id = saga_job Function.process_billing id (JobId.billing id)

abbrev pub inventory_job : ℕ → Job
inventory_job id = saga_job Function.process_inventory id (JobId.inventory id)

abbrev pub logistic_job : ℕ → Job
logistic_job id = saga_job Function.process_logistic id (JobId.logistic id)

abbrev pub compensation_job : ℕ → Job
compensation_job id = saga_job Function.compensation id (JobId.compensation id)

-- The scheduler's dispatch, with the second in its job id.
abbrev pub dispatch_job : ℕ → ℕ → Job
dispatch_job id at = saga_job Function.compensation id (JobId.compensation_at id at)

-- The soft retry of a compensation.
abbrev pub retry_job : ℕ → ℕ → ℕ → Job
retry_job id retry at = record {
  function = Function.compensation;
  order_id = id;
  retry_count = retry;
  job_id = JobId.compensation_at id at;
  queue = saga_tasks;
  defer_by = 15;
}

pub data Service : Type 0 where
  billing inventory logistics : Service

-- The end of the URL behind the order's id.
pub data Action : Type 0 where
  execute refund release cancel : Action

pub record Post : Type 0 where
  pub service : Service
  pub order_id : ℕ
  pub action : Action

-- A response with its status code, or an exception raised by the HTTP client.
pub data HttpResult : Type 0 where
  response : ℕ → HttpResult
  failure : HttpResult

-- FAILED, unless the call came back with the status 200.
abbrev pub step_status : HttpResult → SagaStepStatus
step_status (response code) = if code == 200 then success else failed
step_status failure = failed
