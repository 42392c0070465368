-- ===== src/Tasks/Compensation.antt =====
-- src/workers/saga_tasks/compensation.py: undo the steps that succeeded, retry, or give up.
pub mod Row
pub mod Laws
pub mod Written
pub mod Settles
pub mod Retries
pub mod Rows
use saga_orchestrator_patter.Base.{
  ℕ, ◌+◌, Bool, true, false, Option, none, some, leb, if◌then◌else◌,
}
use saga_orchestrator_patter.Models.Enums.{
  SagaStepStatus, OrderGlobalStatus, failed, manual_intervention_required,
}
use saga_orchestrator_patter.Models.Order.{Order}
use saga_orchestrator_patter.Table.{OrderTable}
use saga_orchestrator_patter.World.Jobs.{
  HttpResult, Service, Action, Post, refund, release, cancel, retry_job,
}
use saga_orchestrator_patter.World.Metrics.{
  Step, compensation_attempted, stuck, record_execution, record_step_status, observe_step_duration,
  record_final_status_transition,
}
use saga_orchestrator_patter.World.Effects.{
  Outcome, returned, raised, Commit, World, post, enqueue, measure, commit, send_critical_alert,
  exhausted_retries,
}
use saga_orchestrator_patter.Tasks.Compensation.Row.{
  Undo, has_pending, undo_of, begin_row, Replies, end_row, is_left, cancelled_row, manual_row,
}

pub record CompensationEnv (T : OrderTable) : Type 0 where
  pub read : Bool
  pub began : Commit
  pub started_at : ℕ
  pub replies : Replies
  pub meanwhile : T.Rows → T.Rows
  pub reread : Bool
  pub webhook : Bool
  pub ended : Commit
  pub finished_at : ℕ
  pub retry_sent : Bool

module _ {T : OrderTable} where
  undo_post : Bool → Service → Action → ℕ → World T → World T
  undo_post wanted s a id w =
      if wanted then post (record { service = s; order_id = id; action = a }) w else w

  -- `asyncio.gather(*tasks)`: `invoke_refund` raises nothing
  undo_posts : Undo → ℕ → World T → World T
  unfolding undo_post
  undo_posts u id w = undo_post u.logistics Service.logistics cancel id (
      undo_post u.inventory Service.inventory release id
        (undo_post u.billing Service.billing refund id w))

  finish_cancelled : CompensationEnv T → Order → Order → World T → Outcome × World T
  finish_cancelled env o settled w = commit env.ended env.finished_at o (cancelled_row settled) (
      measure (record_step_status Step.compensation SagaStepStatus.compensated) (
        measure (record_final_status_transition settled.global_status OrderGlobalStatus.cancelled)
          w))

  finish_manual : CompensationEnv T → ℕ → Order → Order → World T → Outcome × World T
  finish_manual env id o settled w = commit env.ended env.finished_at o (manual_row settled) (
      send_critical_alert env.webhook id exhausted_retries (
        measure (record_step_status Step.compensation failed) (measure (record_execution stuck) w)))

  -- The retry is enqueued only after the commit.
  schedule_retry : CompensationEnv T → ℕ → ℕ → Outcome × World T → Outcome × World T
  schedule_retry env id retry (raised, w) = (raised, w)
  schedule_retry env id retry (returned, w) = (
    if env.retry_sent then returned else raised,
    enqueue env.retry_sent (retry_job id (retry + 1) env.finished_at) w,
  )

  finish_partial : CompensationEnv T → ℕ → ℕ → Order → Order → World T → Outcome × World T
  unfolding schedule_retry
  finish_partial env id retry o settled w = schedule_retry env id retry (
      commit env.ended env.finished_at o settled
        (measure (record_step_status Step.compensation failed) w))

  finish : CompensationEnv T → ℕ → ℕ → Undo → Order → World T → Outcome × World T
  unfolding finish_cancelled finish_manual finish_partial
  finish env id retry u o w =
      let settled = end_row u env.replies o in
      if is_left settled
      then (if leb 4 retry
          then finish_manual env id o settled w
          else finish_partial env id retry o settled w)
      else finish_cancelled env o settled w

  end_found : CompensationEnv T → ℕ → ℕ → Undo → Option Order → World T → Outcome × World T
  unfolding finish
  end_found env id retry u none w = (returned, w)
  end_found env id retry u (some o) w = finish env id retry u o w

  -- The last session.
  unfoldable pub end_phase : CompensationEnv T → ℕ → ℕ → Undo → World T → Outcome × World T
  unfolding end_found
  end_phase env id retry u w =
      if env.reread then end_found env id retry u (T.find id w.rows) w else (raised, w)

  -- The rollback calls, while which other transactions may commit.
  unfoldable pub call_services : CompensationEnv T → ℕ → Undo → World T → World T
  unfolding undo_posts
  call_services env id u w =
      let w' = undo_posts u id w in record w' { rows = env.meanwhile w'.rows }

  unfoldable pub go_on : CompensationEnv T → ℕ → ℕ → Undo → Outcome × World T → Outcome × World T
  go_on env id retry u (raised, w) = (raised, w)
  go_on env id retry u (returned, w) = end_phase env id retry u (call_services env id u w)

  begin_found : CompensationEnv T → ℕ → ℕ → Option Order → World T → Outcome × World T
  begin_found env id retry none w = (returned, w)
  begin_found env id retry (some o) w =
      if has_pending o
      then (returned, w)
      else go_on env id retry (undo_of o)
          (commit env.began env.started_at o (begin_row env.started_at o) w)

  compensation_body : CompensationEnv T → ℕ → ℕ → World T → Outcome × World T
  unfolding begin_found
  compensation_body env id retry w =
      if env.read then begin_found env id retry (T.find id w.rows) w else (raised, w)

  observed : Outcome × World T → Outcome × World T
  observed (out, w) = (out, measure (observe_step_duration Step.compensation) w)

  unfoldable pub compensation : CompensationEnv T → ℕ → ℕ → World T → Outcome × World T
  unfolding compensation_body observed
  compensation env id retry w =
      observed
        (compensation_body env id retry (measure (record_execution compensation_attempted) w))
