-- ===== src/Scheduler/Dead.antt =====
-- What the check for dead orders does to every order, alone and after a poll.
use mathlib.Core.Option
use saga_orchestrator_patter.Base.{
  ℕ, ltb, ◌+◌, ◌≤◌, ◌≡◌, refl, ◌∙◌, Bool, true, false, some, List, [], ◌∷◌, arith, ◌==◌, ◌&&◌, ◌||◌,
  any, length, if◌then◌else◌,
}
use saga_orchestrator_patter.Models.Enums.{compensating, manual_intervention_required, same_status}
use saga_orchestrator_patter.Models.Order.{Order}
use saga_orchestrator_patter.Table.{OrderTable}
use saga_orchestrator_patter.Table.Rows.{keyed}
use saga_orchestrator_patter.Tasks.Compensation.Row.{is_left}
use saga_orchestrator_patter.World.Effects.{returned, committed, Alert, World}
use saga_orchestrator_patter.Scheduler.Updates.{marked, touched, is_some, mark_all, find-mark_all}
use saga_orchestrator_patter.Scheduler.Poll
use saga_orchestrator_patter.Scheduler.Poll.{
  holds, holds-same, select-needs_manual, is_some-matching, poll_effects,
}
use saga_orchestrator_patter.Scheduler.{
  PollEnv, DeadEnv, alert_all, check_and_alert_dead_orders, poll_and_dispatch_orders, is_dead,
  is_stuck, needs_manual, sync_manual_intervention_gauge,
}

-- No call to the database fails.
pub record IsHealthy {T : OrderTable} (env : DeadEnv T) : Type 0 where
  pub fetched : env.fetched ≡ true
  pub committed : env.committed ≡ committed
  pub gauge_read : env.gauge_read ≡ true

-- In COMPENSATING, and no update for more than an hour.
unfoldable pub waits_for_check : ℕ → Order → Bool
waits_for_check now o = same_status o.global_status compensating && ltb (o.updated_at + 3600) now

waits-is_dead : (now : ℕ) (o : Order) → waits_for_check now o ≡ is_dead now o
unfolding waits_for_check is_dead same_status
waits-is_dead now o = ground arith

-- An alert about the order `i`.
abbrev pub is_about : ℕ → Alert → Bool
is_about i alert = alert.order_id == i

module _ {T : OrderTable} (env : DeadEnv T) where
  alert_all-rows : (os : List Order) (w : World T) → (alert_all env os w).rows ≡ w.rows
  unfolding alert_all
  alert_all-rows [] w = refl
  alert_all-rows (o ∷ rest) w = alert_all-rows rest _ ∙ ground arith

  alert_all-alerts :
      (i : ℕ) (os : List Order) (w : World T)
      → any (is_about i) (alert_all env os w).alerts
        ≡ (is_some (keyed i os) && env.webhook) || any (is_about i) w.alerts
  unfolding alert_all
  alert_all-alerts i [] w = refl
  alert_all-alerts i (o ∷ rest) w = alert_all-alerts i rest _ ∙ ground arith

  module _ (w : World T) (i : ℕ) where
    selected :
        is_some (keyed i (T.select (is_dead env.now) w.rows))
        ≡ holds (is_dead env.now) (T.find i w.rows)
    selected = rw T.keyed-select (is_some-matching (is_dead env.now) (T.find i w.rows))

    -- The effects of the check, by the functions of the code.
    pub check_effects :
        IsHealthy env
        → ((check_and_alert_dead_orders env w).0 ≡ returned)
          × (T.find i (check_and_alert_dead_orders env w).1.rows ≡ (
              if holds (is_dead env.now) (T.find i w.rows)
              then Option.map (marked env.flushed_at) (T.find i (env.meanwhile w.rows))
              else T.find i (env.meanwhile w.rows)))
          × (any (is_about i) (check_and_alert_dead_orders env w).1.alerts
              ≡ (holds (is_dead env.now) (T.find i w.rows) && env.webhook)
                || any (is_about i) w.alerts)
          × ((check_and_alert_dead_orders env w).1.metrics.stuck_current
              ≡ length (T.select needs_manual (check_and_alert_dead_orders env w).1.rows))
    unfolding check_and_alert_dead_orders sync_manual_intervention_gauge mark_all
    check_effects h =
        let dead = T.select (is_dead env.now) w.rows in
        ground (
          arith,
          selected,
          alert_all-rows dead w,
          alert_all-alerts i dead w,
          find-mark_all T env.flushed_at dead i (env.meanwhile w.rows),
        )

    -- If no call to the database fails, the check for dead orders returns; it moves exactly the
    -- orders that were in COMPENSATING without an update for more than 3600 seconds to
    -- MANUAL_INTERVENTION_REQUIRED, and changes nothing else of them but the time of the last
    -- update; it alerts about exactly those if a webhook is set, and sets the gauge to the number
    -- of orders in MANUAL_INTERVENTION_REQUIRED.
    pub check_and_alert_marks :
        IsHealthy env
        → ((check_and_alert_dead_orders env w).0 ≡ returned)
          × (T.find i (check_and_alert_dead_orders env w).1.rows ≡ (
              if holds (waits_for_check env.now) (T.find i w.rows)
              then Option.map {A = Order}
                  (λ o. record o {
                    global_status = manual_intervention_required;
                    updated_at = env.flushed_at;
                  })
                  (T.find i (env.meanwhile w.rows))
              else T.find i (env.meanwhile w.rows)))
          × (any (is_about i) (check_and_alert_dead_orders env w).1.alerts
              ≡ (holds (waits_for_check env.now) (T.find i w.rows) && env.webhook)
                || any (is_about i) w.alerts)
          × ((check_and_alert_dead_orders env w).1.metrics.stuck_current
              ≡ length (
                  T.select
                    (λ o. same_status o.global_status manual_intervention_required)
                    (check_and_alert_dead_orders env w).1.rows))
    check_and_alert_marks h =
        let (returns, rows, alerts, gauge) = check_effects h in
        let dead = holds-same (waits-is_dead env.now) (T.find i w.rows) in
        (
          returns,
          rw dead rows,
          rw dead alerts,
          gauge ∙ select-needs_manual T (check_and_alert_dead_orders env w).1.rows,
        )

-- A row that a poll at time `now` has seen, with a step still to undo, is not dead within the next
-- 3540 seconds: either it was stuck, and has a new time, or it is younger than the timeout.
touched-not_dead :
    (now later stamp : ℕ) (o : Order)
    → is_left o ≡ true
    → now ≤ stamp
    → later ≤ now + 3540
    → is_dead later (if is_stuck now o then touched stamp o else o) ≡ false
unfolding is_dead is_stuck
touched-not_dead now later stamp o left fresh soon = ground arith

module _ {T : OrderTable} (env : PollEnv T) (w : World T) (i : ℕ) (o : Order) where
  -- If a poll works, its job for an order with a step in SUCCESS is enqueued and no one else
  -- changes the row, then the check for dead orders does not select the order up to 3540 seconds
  -- after the poll.
  pub poll_hides_dead :
      Poll.IsHealthy env
      → T.find i w.rows ≡ some o
      → T.find i (env.meanwhile w.rows) ≡ some o
      → is_left o ≡ true
      → env.sent i ≡ true
      → env.now ≤ env.stamp i
      → (later : ℕ) → later ≤ env.now + 3540
      → holds (is_dead later) (T.find i (poll_and_dispatch_orders env w).1.rows) ≡ false
  poll_hides_dead h found here left sent fresh later soon =
      let (_, rows, _, _) = poll_effects env w i h in
      ground (arith, rows, touched-not_dead env.now later (env.stamp i) o left fresh soon)
