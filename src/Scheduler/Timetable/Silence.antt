-- ===== src/Scheduler/Timetable/Silence.antt =====
-- The check for dead orders on the cron table, where the polls run too.
use saga_orchestrator_patter.Base.{
  ℕ, zero, suc, ◌+◌, ◌*◌, ◌/◌, ◌%◌, ◌≤◌, ◌≡◌, refl, ◌∙◌, ap, true, false, some, List, [], ◌∷◌, inl,
  inr, arith, ◌==◌, any, if◌then◌else◌, Bool-cases,
}
use saga_orchestrator_patter.Models.Enums.{is_compensating}
use saga_orchestrator_patter.Models.Order.{Order, statuses}
use saga_orchestrator_patter.Table.{OrderTable}
use saga_orchestrator_patter.Tasks.Compensation.Row.{is_left}
use saga_orchestrator_patter.World.Effects.{World}
use saga_orchestrator_patter.Scheduler.Updates.{touched}
use saga_orchestrator_patter.Scheduler.Poll.{poll_effects}
use saga_orchestrator_patter.Scheduler.Dead.{is_about, check_effects}
use saga_orchestrator_patter.Scheduler.Watch.{Unseen, poll-alerts}
use saga_orchestrator_patter.Scheduler.{is_stuck, is_dead}
use saga_orchestrator_patter.Scheduler.Timetable.{
  Arq, Plan, IsPunctual, CronFunction, poll, check, is_poll, run_one, run_each, due_in_order,
  due_in_order-poll, run_cron,
}

-- The order is as `o` but for the time of its last update, which is no more than 90 seconds before
-- `b`, and no alert about it was sent.
record Recent {T : OrderTable} (i : ℕ) (o : Order) (w : World T) (b : ℕ) (w' : World T)
    : Type 0 where
  row : Order
  found : T.find i w'.rows ≡ some row
  columns : statuses row ≡ statuses o
  alerts : any (is_about i) w'.alerts ≡ any (is_about i) w.alerts
  recent : b ≤ row.updated_at + 90

-- A poll from second `t` on gives a row that is still to undo a new time, or finds it young.
touched-recent :
    (t now stamp : ℕ) (o : Order)
    → is_left o ≡ true
    → is_compensating o.global_status ≡ true
    → t ≤ now
    → now ≤ stamp
    → t + 30 ≤ (if is_stuck now o then touched stamp o else o).updated_at + 90
unfolding is_stuck
touched-recent t now stamp o left undoing from stamped = ground arith

alive_until : (now : ℕ) (o : Order) → now ≤ o.updated_at + 3600 → is_dead now o ≡ false
unfolding is_dead
alive_until now o soon = ground arith

module _ {T : OrderTable} (p : Plan T) (i d : ℕ) (on_time : IsPunctual i d p) (o : Order)
    (left : is_left o ≡ true) (undoing : is_compensating o.global_status ≡ true) (prompt : d ≤ 3510)
    (w : World T) where
  Recent-weaken : (b c : ℕ) (w' : World T) → b ≤ c → Recent i o w c w' → Recent i o w b w'
  Recent-weaken b c w' le h = record {
    row = h.row;
    found = h.found;
    columns = h.columns;
    alerts = h.alerts;
    recent = omega (arith, h.recent);
  }

  poll-Recent :
      (t b : ℕ) (w' : World T) → Recent i o w b w' → Recent i o w (t + 30) (run_one p t poll w')
  unfolding run_one
  poll-Recent t b w' h =
      let env = p.poll t in
      let (_, rows, _, _) = poll_effects env w' i (on_time.polled t) in
      let left' : is_left h.row ≡ true = ground (arith, h.columns) in
      let undoing' : is_compensating h.row.global_status ≡ true = ground (arith, h.columns) in
      record {
        row = if is_stuck env.now h.row then touched (env.stamp i) h.row else h.row;
        found = ground (arith, rows, on_time.poll_alone t w'.rows, h.found, on_time.sent t);
        columns = ground (arith, h.columns);
        alerts = ap (any (is_about i)) (poll-alerts env w') ∙ h.alerts;
        recent =
            touched-recent t env.now (env.stamp i) h.row left' undoing' (on_time.poll_from t)
              (on_time.stamped t);
      }

  check-Recent :
      (t b : ℕ) (w' : World T) → t ≤ b → Recent i o w b w' → Recent i o w b (run_one p t check w')
  unfolding run_one
  check-Recent t b w' by h =
      let env = p.check t in
      let soon : env.now ≤ h.row.updated_at + 3600 = omega (arith, on_time.check_by t, h.recent) in
      let alive = alive_until env.now h.row soon in
      let (_, rows, alerts, _) = check_effects env w' i (on_time.checked t) in
      record {
        row = h.row;
        found = ground (arith, rows, h.found, alive, on_time.check_alone t w'.rows);
        columns = h.columns;
        alerts = ground (arith, alerts, h.found, alive, h.alerts);
        recent = h.recent;
      }

  run_each-Recent :
      (t b : ℕ) (fs : List CronFunction) (w' : World T)
      → t ≤ b
      → b ≤ t + 30
      → Recent i o w b w'
      → Recent i o w b (run_each p t fs w')
  unfolding run_each
  run_each-Recent t b [] w' from by h = h
  run_each-Recent t b (poll ∷ fs) w' from by h =
      let w1 = run_one p t poll w' in
      run_each-Recent t b fs w1 from by (Recent-weaken b (t + 30) w1 by (poll-Recent t b w' h))
  run_each-Recent t b (check ∷ fs) w' from by h =
      run_each-Recent t b fs (run_one p t check w') from by (check-Recent t b w' from h)

  run_each-poll :
      (t b : ℕ) (fs : List CronFunction) (w' : World T)
      → t ≤ b
      → any is_poll fs ≡ true
      → Recent i o w b w'
      → Recent i o w (t + 30) (run_each p t fs w')
  unfolding run_each
  run_each-poll t b [] w' from due h = absurd (ground arith)
  run_each-poll t b (poll ∷ fs) w' from due h =
      run_each-Recent t (t + 30) fs (run_one p t poll w') (omega arith) (omega arith)
        (poll-Recent t b w' h)
  run_each-poll t b (check ∷ fs) w' from due h =
      run_each-poll t b fs (run_one p t check w') from due (check-Recent t b w' from h)

-- The start of the next poll, from second `t` on.
abbrev next_poll : ℕ → ℕ
next_poll t = (t + 29) / 30 * 30

module _ {T : OrderTable} (arq : Arq) (p : Plan T) (i d : ℕ) (o : Order) (s : ℕ) (w : World T) where
  run_cron-Recent :
      IsPunctual i d p
      → is_left o ≡ true
      → is_compensating o.global_status ≡ true
      → d ≤ 3510
      → (n : ℕ) → Recent i o w (next_poll s) w
      → Recent i o w (next_poll (s + n)) (run_cron arq p s n w)
  unfolding run_cron
  run_cron-Recent on_time left undoing prompt zero h =
      Recent-weaken p i d on_time o left undoing prompt w (next_poll (s + 0)) (next_poll s) w
        (omega arith) h
  run_cron-Recent on_time left undoing prompt (suc n) h =
      let t = s + n in
      let fs = due_in_order arq p t in
      let w' = run_cron arq p s n w in
      let ih = run_cron-Recent on_time left undoing prompt n h in
      let from : t ≤ next_poll t = omega arith in
      elim (Bool-cases (t % 30 == 0)) [
        | inl now ↦
            Recent-weaken p i d on_time o left undoing prompt w (next_poll (s + suc n)) (t + 30)
              (run_each p t fs w') (ground arith)
              (run_each-poll p i d on_time o left undoing prompt w t (next_poll t) fs w' from
                (due_in_order-poll arq p t ∙ now) ih)
        | inr between ↦
            Recent-weaken p i d on_time o left undoing prompt w (next_poll (s + suc n))
              (next_poll t) (run_each p t fs w') (ground arith)
              (run_each-Recent p i d on_time o left undoing prompt w t (next_poll t) fs w' from
                (omega arith) ih)
      ]

  -- Let an order be in COMPENSATING with a step in SUCCESS, and let the scheduler run by its cron
  -- table for any number of seconds from some second up to a minute after the order's last update
  -- on, where its jobs start at most d seconds late, d up to 3510, their clocks do not run back,
  -- the calls to the database and the broker work and no one else changes the row. Then the order
  -- keeps its statuses and no alert about it is sent, though the check for dead orders runs every
  -- ten minutes.
  pub run_cron_never_alerts :
      IsPunctual i d p
      → T.find i w.rows ≡ some o
      → is_left o ≡ true
      → is_compensating o.global_status ≡ true
      → s ≤ o.updated_at + 60
      → d ≤ 3510
      → (n : ℕ) → Unseen i o w (run_cron arq p s n w)
  run_cron_never_alerts on_time found left undoing begun prompt n =
      let start : Recent i o w (next_poll s) w = record {
        row = o;
        found = found;
        columns = refl;
        alerts = refl;
        recent = omega arith;
      } in
      let h = run_cron-Recent on_time left undoing prompt n start in
      record { row = h.row; found = h.found; columns = h.columns; alerts = h.alerts }
