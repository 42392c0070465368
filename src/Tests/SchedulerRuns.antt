-- ===== src/Tests/SchedulerRuns.antt =====
-- The cron jobs on a table with one order, and the orders that they cannot help.
use mathlib.Core.Option
use saga_orchestrator_patter.Base.{
  ◌≡◌, refl, true, false, ◌&&◌, ◌||◌, some, any, length, if◌then◌else◌, ℕ, suc, [],
}
use saga_orchestrator_patter.Table.RowList.{row_list}
use saga_orchestrator_patter.Table.Rows.{keyed}
use saga_orchestrator_patter.World.Jobs.{failure}
use saga_orchestrator_patter.World.Effects.{returned, committed}
use saga_orchestrator_patter.Tasks.Env as Step
use saga_orchestrator_patter.Tasks.Env.{StepEnv}
use saga_orchestrator_patter.Scheduler.Poll as Poll
use saga_orchestrator_patter.Scheduler.Poll.{holds, waits_for_poll, is_for, poll_touches}
use saga_orchestrator_patter.Scheduler.Dead.{waits_for_check, is_about, check_and_alert_marks}
use saga_orchestrator_patter.Scheduler.Stalled.{Stalled, recover, recover_stalls}
use saga_orchestrator_patter.Saga.Stranded.{Stranded, both_fail, both_fail_strands}
use saga_orchestrator_patter.Scheduler.{
  PollEnv, DeadEnv, poll_and_dispatch_orders, check_and_alert_dead_orders, is_stuck,
}
use saga_orchestrator_patter.Models.Enums.{
  OrderGlobalStatus, manual_intervention_required, same_step, same_status,
}
use saga_orchestrator_patter.Models.Order.{Order, statuses}
use saga_orchestrator_patter.Tasks.Compensation.Laws.{rollbacks}
use saga_orchestrator_patter.Worker.{poll, work, handle}
use saga_orchestrator_patter.Worker.Recovery.{undone_step, poll_recovers}
use saga_orchestrator_patter.Tests.WorkerRuns.{all_well}
use saga_orchestrator_patter.Tests.Fixtures.{
  billed, postpaid, half_done, world_of, step_env, compensation_env,
}

-- Two minutes after the last update of every row.
abbrev poll_env : PollEnv row_list
poll_env = record {
  fetched = true;
  now = 220;
  sent = λ _. true;
  stamp = λ _. 221;
  meanwhile = λ rows. rows;
  committed = committed;
  gauge_read = true;
}

poll_env-IsHealthy : Poll.IsHealthy poll_env
poll_env-IsHealthy = record { fetched = refl; committed = refl; gauge_read = refl }

-- More than an hour after it.
abbrev dead_env : DeadEnv row_list
dead_env = record {
  fetched = true;
  now = 3800;
  webhook = true;
  meanwhile = λ rows. rows;
  committed = committed;
  flushed_at = 3801;
  gauge_read = true;
}

poll_touches_example :
    let w = (poll_and_dispatch_orders poll_env (world_of billed)) in
    let stuck = holds (waits_for_poll 220) (some billed) in
    (w.0 ≡ returned)
    × (keyed 7 w.1.rows.0 ≡ (
        if stuck && true
        then Option.map {A = Order} (λ o. record o { updated_at = 221 }) (some billed)
        else some billed))
    × (any (is_for 7) w.1.jobs ≡ (stuck && true) || false)
    × (w.1.metrics.stuck_current
        ≡ length (
            row_list.select
              (λ o. same_status o.global_status manual_intervention_required)
              w.1.rows))
poll_touches_example = poll_touches poll_env (world_of billed) 7 poll_env-IsHealthy

billed_waits : waits_for_poll 220 billed ≡ true
unfolding waits_for_poll same_step
billed_waits = refl

check_and_alert_marks_example :
    let w = (check_and_alert_dead_orders dead_env (world_of half_done)) in
    let dead = holds (waits_for_check 3800) (some half_done) in
    (w.0 ≡ returned)
    × (keyed 7 w.1.rows.0 ≡ (
        if dead
        then Option.map {A = Order}
            (λ o. record o { global_status = manual_intervention_required; updated_at = 3801 })
            (some half_done)
        else some half_done))
    × (any (is_about 7) w.1.alerts ≡ (dead && true) || false)
    × (w.1.metrics.stuck_current
        ≡ length (
            row_list.select
              (λ o. same_status o.global_status manual_intervention_required)
              w.1.rows))
check_and_alert_marks_example =
    check_and_alert_marks dead_env (world_of half_done) 7
      record { fetched = refl; committed = refl; gauge_read = refl }

half_done_waits : waits_for_check 3800 half_done ≡ true
unfolding waits_for_check same_status
half_done_waits = refl

recover_stalls_example :
    Stalled 7 billed
      (world_of billed)
      (recover (λ _. poll_env) (λ _. compensation_env failure) 7 3 (world_of billed))
recover_stalls_example =
    recover_stalls (λ _. poll_env) (λ _. compensation_env failure) 7 3 (world_of billed) billed refl
      refl (λ _ _. refl)

abbrev unreachable : StepEnv
unreachable = step_env failure committed

unreachable-IsHealthy : Step.IsHealthy unreachable
unreachable-IsHealthy = record { read = refl; compensation_sent = refl; committed = refl }

both_fail_strands_example :
    Stranded 7
      (world_of postpaid)
      (both_fail unreachable unreachable (compensation_env failure) 7 (world_of postpaid))
both_fail_strands_example =
    both_fail_strands unreachable unreachable (compensation_env failure) 7 (world_of postpaid)
      postpaid unreachable-IsHealthy unreachable-IsHealthy refl refl refl refl

half_done_stuck : is_stuck 220 half_done ≡ true
unfolding is_stuck
half_done_stuck = refl

poll_recovers_example :
    let w = handle (poll poll_env) (world_of half_done) in
    (n : ℕ) × (row : Order) × (keyed 7 (handle (work n all_well) w).rows.0 ≡ some row)
    × (statuses row ≡ (
      undone_step half_done.billing_status,
      undone_step half_done.inventory_status,
      undone_step half_done.logistics_status,
      OrderGlobalStatus.cancelled,
    ))
    × ((handle (work n all_well) w).posts ≡ rollbacks half_done 7 [])
    × (suc (length (handle (work n all_well) w).jobs) ≡ length w.jobs)
poll_recovers_example =
    poll_recovers poll_env all_well 7 half_done (world_of half_done) poll_env-IsHealthy refl
      (λ _. refl) half_done_stuck refl refl
      record { read = refl; began = refl; reread = refl; ended = refl; retry_sent = refl }
      (λ _. refl) refl refl refl
