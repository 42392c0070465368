-- ===== src/Models/Enums.antt =====
-- src/db/models/enums.py, with the comparisons that the code makes between members.
use saga_orchestrator_patter.Base.{Bool, true, false, ◌≡◌, arith}

pub data SagaStepStatus : Type 0 where
  pending failed success cancelled compensated skipped : SagaStepStatus

pub data OrderGlobalStatus : Type 0 where
  processing completed cancelled compensating manual_intervention_required : OrderGlobalStatus

pub data UserPrivileges : Type 0 where
  user admin : UserPrivileges

pub data PaymentWay : Type 0 where
  prepayment postpayment : PaymentWay

-- `status == SagaStepStatus.PENDING`
abbrev pub is_pending : SagaStepStatus → Bool
is_pending pending = true
is_pending _ = false

-- `status == SagaStepStatus.SUCCESS`
abbrev pub is_success : SagaStepStatus → Bool
is_success success = true
is_success _ = false

-- `status in (SagaStepStatus.SUCCESS, SagaStepStatus.SKIPPED)`
abbrev pub is_paid : SagaStepStatus → Bool
is_paid success = true
is_paid skipped = true
is_paid _ = false

-- `status == OrderGlobalStatus.PROCESSING`, and so on
abbrev pub is_processing : OrderGlobalStatus → Bool
is_processing processing = true
is_processing _ = false

abbrev pub is_compensating : OrderGlobalStatus → Bool
is_compensating compensating = true
is_compensating _ = false

abbrev pub is_manual : OrderGlobalStatus → Bool
is_manual manual_intervention_required = true
is_manual _ = false

-- `previous_status == current_status`, for any two members
unfoldable pub same_step : SagaStepStatus → SagaStepStatus → Bool
same_step pending pending = true
same_step failed failed = true
same_step success success = true
same_step cancelled cancelled = true
same_step compensated compensated = true
same_step skipped skipped = true
same_step _ _ = false

unfoldable pub same_status : OrderGlobalStatus → OrderGlobalStatus → Bool
same_status processing processing = true
same_status completed completed = true
same_status cancelled cancelled = true
same_status compensating compensating = true
same_status manual_intervention_required manual_intervention_required = true
same_status _ _ = false

pub same_step→eq : (s t : SagaStepStatus) → same_step s t ≡ true → s ≡ t
unfolding same_step
same_step→eq s t h = ground arith

pub same_status→eq : (s t : OrderGlobalStatus) → same_status s t ≡ true → s ≡ t
unfolding same_status
same_status→eq s t h = ground arith

pub same_step_refl : (s : SagaStepStatus) → same_step s s ≡ true
unfolding same_step
same_step_refl s = ground arith

pub same_status_refl : (s : OrderGlobalStatus) → same_status s s ≡ true
unfolding same_status
same_status_refl s = ground arith
