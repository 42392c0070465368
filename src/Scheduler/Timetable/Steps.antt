-- ===== src/Scheduler/Timetable/Steps.antt =====
-- One second of the cron table, for an order that waits for a compensation.
use saga_orchestrator_patter.Base.{
  ℕ, ◌+◌, ◌≤◌, ◌≡◌, refl, ◌∙◌, Bool, true, false, ◌⊎◌, inl, inr, some, List, [], ◌∷◌, arith, any,
  Bool-cases,
}
use saga_orchestrator_patter.Models.Order.{Order}
use saga_orchestrator_patter.Table.{OrderTable}
use saga_orchestrator_patter.World.Effects.{World}
use saga_orchestrator_patter.Scheduler.Poll.{is_for, poll_effects}
use saga_orchestrator_patter.Scheduler.Dead.{check_effects}
use saga_orchestrator_patter.Scheduler.{
  DeadEnv, alert_all, check_and_alert_dead_orders, is_stuck, is_dead,
  sync_manual_intervention_gauge,
}
use saga_orchestrator_patter.Scheduler.Timetable.{
  Plan, IsPunctual, CronFunction, poll, check, is_poll, run_one, run_each,
}

module _ {T : OrderTable} (env : DeadEnv T) where
  alert_all-jobs : (os : List Order) (w : World T) → (alert_all env os w).jobs ≡ w.jobs
  unfolding alert_all
  alert_all-jobs [] w = refl
  alert_all-jobs (o ∷ rest) w = alert_all-jobs rest _ ∙ ground arith

  check-jobs : (w : World T) → (check_and_alert_dead_orders env w).1.jobs ≡ w.jobs
  unfolding check_and_alert_dead_orders sync_manual_intervention_gauge
  check-jobs w = ground (arith, alert_all-jobs (T.select (is_dead env.now) w.rows) w)

abbrev pub enqueued : {T : OrderTable} → ℕ → World T → Bool
enqueued i w = any (is_for i) w.jobs

-- The row is as it was, and no job of the order waits.
pub record Pending {T : OrderTable} (i : ℕ) (o : Order) (w : World T) : Type 0 where
  pub found : T.find i w.rows ≡ some o
  pub no_job : enqueued i w ≡ false

module _ {T : OrderTable} (p : Plan T) (i d : ℕ) (on_time : IsPunctual i d p) (o : Order) where
  run_one-enqueued :
      (t : ℕ) (f : CronFunction) (w : World T)
      → enqueued i w ≡ true
      → enqueued i (run_one p t f w) ≡ true
  unfolding run_one
  run_one-enqueued t poll w done =
      ground (arith, (poll_effects (p.poll t) w i (on_time.polled t)).2)
  run_one-enqueued t check w done = ground (arith, check-jobs (p.check t) w)

  poll-enqueued :
      (t : ℕ) (w : World T)
      → is_stuck (p.poll t).now o ≡ true
      → Pending i o w
      → enqueued i (run_one p t poll w) ≡ true
  unfolding run_one
  poll-enqueued t w stuck h =
      ground (arith, (poll_effects (p.poll t) w i (on_time.polled t)).2, on_time.sent t)

  poll-Pending :
      (t : ℕ) (w : World T)
      → is_stuck (p.poll t).now o ≡ false
      → Pending i o w
      → Pending i o (run_one p t poll w)
  unfolding run_one
  poll-Pending t w young h =
      let r = poll_effects (p.poll t) w i (on_time.polled t) in
      ground (arith, r.1, r.2, on_time.poll_alone t w.rows)

  check-Pending :
      (t : ℕ) (w : World T)
      → is_dead (p.check t).now o ≡ false
      → Pending i o w
      → Pending i o (run_one p t check w)
  unfolding run_one
  check-Pending t w alive h =
      let r = check_effects (p.check t) w i (on_time.checked t) in
      ground (arith, r.1, on_time.check_alone t w.rows, check-jobs (p.check t) w)

  -- The order would be stuck a minute after its last update.
  module _ (waits : is_stuck (o.updated_at + 61) o ≡ true) where
    stuck_from : (now : ℕ) → o.updated_at + 61 ≤ now → is_stuck now o ≡ true
    unfolding is_stuck
    stuck_from now late = ground arith

  young_until : (now : ℕ) → now ≤ o.updated_at + 60 → is_stuck now o ≡ false
  unfolding is_stuck
  young_until now soon = ground arith

  alive_until : (now : ℕ) → now ≤ o.updated_at + 3600 → is_dead now o ≡ false
  unfolding is_dead
  alive_until now soon = ground arith

  pub run_each-enqueued :
      (t : ℕ) (fs : List CronFunction) (w : World T)
      → enqueued i w ≡ true
      → enqueued i (run_each p t fs w) ≡ true
  unfolding run_each
  run_each-enqueued t [] w done = done
  run_each-enqueued t (f ∷ fs) w done =
      run_each-enqueued t fs (run_one p t f w) (run_one-enqueued t f w done)

  -- A second in which the order is not dead: its poll, if any, enqueues it or leaves all as it was.
  module _ (t : ℕ) (alive : t + d ≤ o.updated_at + 3600) where
    check_leaves : (w : World T) → Pending i o w → Pending i o (run_one p t check w)
    check_leaves w h =
        let by : (p.check t).now ≤ o.updated_at + 3600 = omega (arith, on_time.check_by t) in
        check-Pending t w (alive_until (p.check t).now by) h

    pub run_each-Pending :
        (fs : List CronFunction) (w : World T)
        → t + d ≤ o.updated_at + 60
        → Pending i o w
        → Pending i o (run_each p t fs w)
    unfolding run_each
    run_each-Pending [] w young h = h
    run_each-Pending (poll ∷ fs) w young h =
        let by : (p.poll t).now ≤ o.updated_at + 60 = omega (arith, on_time.poll_by t) in
        run_each-Pending fs (run_one p t poll w) young
          (poll-Pending t w (young_until (p.poll t).now by) h)
    run_each-Pending (check ∷ fs) w young h =
        run_each-Pending fs (run_one p t check w) young (check_leaves w h)

    pub run_each-or :
        (fs : List CronFunction) (w : World T)
        → Pending i o w
        → (enqueued i (run_each p t fs w) ≡ true) ⊎ Pending i o (run_each p t fs w)
    unfolding run_each
    run_each-or [] w h = inr h
    run_each-or (poll ∷ fs) w h = elim (Bool-cases (is_stuck (p.poll t).now o)) [
      | inl stuck ↦ inl (run_each-enqueued t fs (run_one p t poll w) (poll-enqueued t w stuck h))
      | inr young ↦ run_each-or fs (run_one p t poll w) (poll-Pending t w young h)
    ]
    run_each-or (check ∷ fs) w h = run_each-or fs (run_one p t check w) (check_leaves w h)

    pub run_each-poll :
        (fs : List CronFunction) (w : World T)
        → is_stuck (o.updated_at + 61) o ≡ true
        → o.updated_at + 61 ≤ t
        → any is_poll fs ≡ true
        → Pending i o w
        → enqueued i (run_each p t fs w) ≡ true
    unfolding run_each
    run_each-poll [] w waits late due h = absurd (ground arith)
    run_each-poll (poll ∷ fs) w waits late due h =
        let by : o.updated_at + 61 ≤ (p.poll t).now = omega (arith, on_time.poll_from t) in
        run_each-enqueued t fs (run_one p t poll w)
          (poll-enqueued t w (stuck_from waits (p.poll t).now by) h)
    run_each-poll (check ∷ fs) w waits late due h =
        run_each-poll fs (run_one p t check w) waits late due (check_leaves w h)
