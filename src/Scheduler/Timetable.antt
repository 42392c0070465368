-- ===== src/Scheduler/Timetable.antt =====
-- `cron_jobs` of src/workers/scheduler.py: at which seconds the jobs of the scheduler start, and the
-- scheduler run second by second. arq is a parameter: what it makes of the times of a job is its
-- documented reading of `second` and `minute`.
pub mod Steps
pub mod Deadline
pub mod Silence
use saga_orchestrator_patter.Base.{
  ℕ, zero, suc, ◌+◌, ◌/◌, ◌%◌, ◌≤◌, ◌≡◌, Bool, true, false, Option, none, some, List, [], ◌∷◌,
  arith, ◌==◌, ◌&&◌, any, if◌then◌else◌,
}
use mathlib.Core.List.{reverse}
use saga_orchestrator_patter.Table.{OrderTable}
use saga_orchestrator_patter.World.Effects.{World}
use saga_orchestrator_patter.Scheduler.Poll
use saga_orchestrator_patter.Scheduler.Dead
use saga_orchestrator_patter.Scheduler.{
  PollEnv, DeadEnv, poll_and_dispatch_orders, check_and_alert_dead_orders,
}

-- The arguments `second` and `minute` of `cron(…)`.
pub record Times : Type 0 where
  pub second : Option (List ℕ)
  pub minute : Option (List ℕ)

pub data CronFunction : Type 0 where
  poll check : CronFunction

pub record CronJob : Type 0 where
  pub function : CronFunction
  pub times : Times

abbrev poll_times : Times
poll_times = record { second = some (0 ∷ 30 ∷ []); minute = none }

abbrev check_times : Times
check_times = record { second = none; minute = some (0 ∷ 10 ∷ 20 ∷ 30 ∷ 40 ∷ 50 ∷ []) }

abbrev pub cron_jobs : List CronJob
cron_jobs =
    record { function = poll; times = poll_times }
    ∷ record { function = check; times = check_times }
    ∷ []

-- A job with no `second` starts at second 0 of its minutes, one with no `minute` in every minute.
abbrev pub at_second : Option (List ℕ) → ℕ → Bool
at_second none n = n == 0
at_second (some ns) n = any (λ m. m == n) ns

abbrev pub at_minute : Option (List ℕ) → ℕ → Bool
at_minute none n = true
at_minute (some ns) n = any (λ m. m == n) ns

pub record Arq : Type 0 where
  pub is_due : Times → ℕ → Bool
  pub is_due_lem :
      (c : Times) (t : ℕ)
      → is_due c t ≡ at_second c.second (t % 60) && at_minute c.minute (t / 60 % 60)

-- The functions that start at second `t`, of all jobs of a list.
abbrev functions_at : Arq → ℕ → List CronJob → List CronFunction
functions_at arq t [] = []
functions_at arq t (job ∷ jobs) =
    let rest = functions_at arq t jobs in
    if arq.is_due job.times t then job.function ∷ rest else rest

unfoldable pub due : Arq → ℕ → List CronFunction
due arq t = functions_at arq t cron_jobs

abbrev pub is_poll : CronFunction → Bool
is_poll poll = true
is_poll check = false

-- The replies to the jobs that start at each second, and whether the jobs of one second are done in
-- the other order.
pub record Plan (T : OrderTable) : Type 0 where
  pub poll : ℕ → PollEnv T
  pub check : ℕ → DeadEnv T
  pub swapped : ℕ → Bool

-- The jobs work, start at most `d` seconds late, can enqueue a job of the order `i`, at a time that is
-- not before the one of the SELECT, and no one else changes its row.
pub record IsPunctual {T : OrderTable} (i d : ℕ) (p : Plan T) : Type 0 where
  pub polled : (t : ℕ) → Poll.IsHealthy (p.poll t)
  pub checked : (t : ℕ) → Dead.IsHealthy (p.check t)
  pub sent : (t : ℕ) → (p.poll t).sent i ≡ true
  pub poll_from : (t : ℕ) → t ≤ (p.poll t).now
  pub poll_by : (t : ℕ) → (p.poll t).now ≤ t + d
  pub stamped : (t : ℕ) → (p.poll t).now ≤ (p.poll t).stamp i
  pub check_by : (t : ℕ) → (p.check t).now ≤ t + d
  pub poll_alone : (t : ℕ) (rows : T.Rows) → T.find i ((p.poll t).meanwhile rows) ≡ T.find i rows
  pub check_alone : (t : ℕ) (rows : T.Rows) → T.find i ((p.check t).meanwhile rows) ≡ T.find i rows

module _ {T : OrderTable} (p : Plan T) where
  unfoldable pub run_one : ℕ → CronFunction → World T → World T
  run_one t poll w = (poll_and_dispatch_orders (p.poll t) w).1
  run_one t check w = (check_and_alert_dead_orders (p.check t) w).1

  unfoldable pub run_each : ℕ → List CronFunction → World T → World T
  run_each t [] w = w
  run_each t (f ∷ fs) w = run_each t fs (run_one t f w)

module _ {T : OrderTable} (arq : Arq) (p : Plan T) where
  abbrev pub due_in_order : ℕ → List CronFunction
  due_in_order t = if p.swapped t then reverse (due arq t) else due arq t

  -- The `n` seconds from second `s` on.
  unfoldable pub run_cron : ℕ → ℕ → World T → World T
  run_cron s zero w = w
  run_cron s (suc n) w = run_each p (s + n) (due_in_order (s + n)) (run_cron s n w)

  -- A poll starts twice a minute.
  pub due_in_order-poll : (t : ℕ) → any is_poll (due_in_order t) ≡ (t % 30 == 0)
  unfolding due
  due_in_order-poll t = ground (arith, arq.is_due_lem poll_times t, arq.is_due_lem check_times t)
