-- ===== src/Tests/CronRuns.antt =====
-- The scheduler on its cron table, second by second, with one order.
use saga_orchestrator_patter.Base.{
  ◌+◌, ◌%◌, ◌/◌, [], ◌∷◌, ◌≡◌, refl, true, false, ◌&&◌, arith, any, ℕ, some,
}
use saga_orchestrator_patter.Table.RowList.{row_list}
use saga_orchestrator_patter.World.Effects.{committed}
use saga_orchestrator_patter.Scheduler.{is_stuck}
use saga_orchestrator_patter.Scheduler.Poll.{is_for}
use saga_orchestrator_patter.Scheduler.Watch.{Unseen}
use saga_orchestrator_patter.Scheduler.Timetable.{
  Arq, Plan, IsPunctual, at_second, at_minute, due, poll, check, run_cron,
}
use saga_orchestrator_patter.Scheduler.Timetable.Deadline.{run_cron_deadline}
use saga_orchestrator_patter.Scheduler.Timetable.Silence.{run_cron_never_alerts}
use saga_orchestrator_patter.Models.Enums.{OrderGlobalStatus}
use saga_orchestrator_patter.Models.Order.{Order, statuses}
use saga_orchestrator_patter.Table.Rows.{keyed}
use saga_orchestrator_patter.Worker.{work, handle}
use saga_orchestrator_patter.Worker.Recovery.{undone_step}
use saga_orchestrator_patter.Worker.Deadline.{run_cron_recovers}
use saga_orchestrator_patter.Tests.WorkerRuns.{all_well}
use saga_orchestrator_patter.Tests.Fixtures.{billed, half_done, world_of}

abbrev documented : Arq
documented = record {
  is_due = λ c t. at_second c.second (t % 60) && at_minute c.minute (t / 60 % 60);
  is_due_lem = λ c t. refl;
}

-- Both jobs at the full ten minutes, the poll alone at the half minute, and none in between.
due_600 : due documented 600 ≡ poll ∷ check ∷ []
unfolding due
due_600 = refl

due_90 : due documented 90 ≡ poll ∷ []
unfolding due
due_90 = refl

due_91 : due documented 91 ≡ []
unfolding due
due_91 = refl

-- Each job starts a second late.
abbrev late_plan : Plan row_list
late_plan = record {
  poll = λ t. record {
    fetched = true;
    now = t + 1;
    sent = λ _. true;
    stamp = λ _. t + 2;
    meanwhile = λ rows. rows;
    committed = committed;
    gauge_read = true;
  };
  check = λ t. record {
    fetched = true;
    now = t + 1;
    webhook = true;
    meanwhile = λ rows. rows;
    committed = committed;
    flushed_at = t + 2;
    gauge_read = true;
  };
  swapped = λ _. false;
}

late_plan-IsPunctual : IsPunctual 7 1 late_plan
late_plan-IsPunctual = record {
  polled = λ _. record { fetched = refl; committed = refl; gauge_read = refl };
  checked = λ _. record { fetched = refl; committed = refl; gauge_read = refl };
  sent = λ _. refl;
  poll_from = λ t. omega arith;
  poll_by = λ t. omega arith;
  stamped = λ t. omega arith;
  check_by = λ t. omega arith;
  poll_alone = λ _ _. refl;
  check_alone = λ _ _. refl;
}

billed_waits : is_stuck 161 billed ≡ true
unfolding is_stuck
billed_waits = refl

-- Last updated at second 100: no job after the first minute of the run, a job after its 92nd second.
run_cron_deadline_example :
    (any (is_for 7) (run_cron documented late_plan 100 60 (world_of billed)).jobs ≡ false)
    × (any (is_for 7) (run_cron documented late_plan 100 91 (world_of billed)).jobs ≡ true)
run_cron_deadline_example =
    run_cron_deadline documented late_plan 7 1 billed 100 (world_of billed) late_plan-IsPunctual
      refl refl billed_waits (omega arith) (omega arith) 60 91 (omega arith) (omega arith)

-- Three hours of it.
run_cron_never_alerts_example :
    Unseen 7 half_done
      (world_of half_done)
      (run_cron documented late_plan 130 10800 (world_of half_done))
run_cron_never_alerts_example =
    run_cron_never_alerts documented late_plan 7 1 half_done 130 (world_of half_done)
      late_plan-IsPunctual refl refl refl (omega arith) (omega arith) 10800

-- An hour of it, and then the worker.
run_cron_recovers_example :
    let w = run_cron documented late_plan 130 3600 (world_of half_done) in
    (n : ℕ) × (row : Order) × (keyed 7 (handle (work n all_well) w).rows.0 ≡ some row)
    × (statuses row ≡ (
      undone_step half_done.billing_status,
      undone_step half_done.inventory_status,
      undone_step half_done.logistics_status,
      OrderGlobalStatus.cancelled,
    ))
run_cron_recovers_example =
    run_cron_recovers documented late_plan all_well 7 1 half_done 130 (world_of half_done)
      late_plan-IsPunctual refl refl refl refl (omega arith) (omega arith)
      record { read = refl; began = refl; reread = refl; ended = refl; retry_sent = refl }
      (λ _. refl) refl refl refl 3600 (omega arith)
