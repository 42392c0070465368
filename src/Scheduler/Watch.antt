-- ===== src/Scheduler/Watch.antt =====
-- Polls and checks for dead orders in turn, round after round.
use saga_orchestrator_patter.Base.{
  ℕ, ◌+◌, ◌≤◌, ◌≡◌, refl, ◌∙◌, ap, true, false, some, List, [], ◌∷◌, arith, ◌&&◌, any,
  if◌then◌else◌,
}
use saga_orchestrator_patter.Models.Order.{Order, statuses}
use saga_orchestrator_patter.Table.{OrderTable}
use saga_orchestrator_patter.Tasks.Compensation.Row.{is_left}
use saga_orchestrator_patter.World.Effects.{World}
use saga_orchestrator_patter.Scheduler.Updates.{touched}
use saga_orchestrator_patter.Scheduler.Poll
use saga_orchestrator_patter.Scheduler.Poll.{holds, poll_effects}
use saga_orchestrator_patter.Scheduler.Dead
use saga_orchestrator_patter.Scheduler.Dead.{is_about, check_effects, poll_hides_dead}
use saga_orchestrator_patter.Scheduler.{
  PollEnv, DeadEnv, dispatch, poll_and_dispatch_orders, check_and_alert_dead_orders, is_stuck,
  is_dead, sync_manual_intervention_gauge,
}

pub record Round (T : OrderTable) : Type 0 where
  pub poll : PollEnv T
  pub check : DeadEnv T

-- Both jobs work, the check comes within 3540 seconds of its poll, and no one else changes the row.
pub record IsTimely {T : OrderTable} (i : ℕ) (r : Round T) : Type 0 where
  pub polled : Poll.IsHealthy r.poll
  pub checked : Dead.IsHealthy r.check
  pub sent : r.poll.sent i ≡ true
  pub fresh : r.poll.now ≤ r.poll.stamp i
  pub soon : r.check.now ≤ r.poll.now + 3540
  pub poll_alone : (rows : T.Rows) → T.find i (r.poll.meanwhile rows) ≡ T.find i rows
  pub check_alone : (rows : T.Rows) → T.find i (r.check.meanwhile rows) ≡ T.find i rows

abbrev pub AllTimely : {T : OrderTable} → ℕ → List (Round T) → Type 0
AllTimely i [] = Unit
AllTimely i (r ∷ rs) = IsTimely i r × AllTimely i rs

-- The order `i` has the statuses of `o` still, and no alert about it was sent.
pub record Unseen {T : OrderTable} (i : ℕ) (o : Order) (w w' : World T) : Type 0 where
  pub row : Order
  pub found : T.find i w'.rows ≡ some row
  pub columns : statuses row ≡ statuses o
  pub alerts : any (is_about i) w'.alerts ≡ any (is_about i) w.alerts

module _ {T : OrderTable} where
  unfoldable pub watch : List (Round T) → World T → World T
  watch [] w = w
  watch (r ∷ rs) w =
      watch rs (check_and_alert_dead_orders r.check (poll_and_dispatch_orders r.poll w).1).1

  dispatch-alerts :
      (env : PollEnv T) (os : List Order) (w : World T) → (dispatch env os w).alerts ≡ w.alerts
  unfolding dispatch
  dispatch-alerts env [] w = refl
  dispatch-alerts env (o ∷ rest) w = dispatch-alerts env rest _ ∙ ground arith

  pub poll-alerts :
      (env : PollEnv T) (w : World T) → (poll_and_dispatch_orders env w).1.alerts ≡ w.alerts
  unfolding poll_and_dispatch_orders sync_manual_intervention_gauge
  poll-alerts env w =
      let stuck = if env.fetched then T.select (is_stuck env.now) w.rows else [] in
      ground (arith, dispatch-alerts env stuck w)

  module _ (i : ℕ) (o : Order) (w : World T) where
    poll-Unseen :
        (r : Round T) (w' : World T)
        → IsTimely i r
        → Unseen i o w w'
        → Unseen i o w (poll_and_dispatch_orders r.poll w').1
    poll-Unseen r w' t u =
        let (_, rows, _, _) = poll_effects r.poll w' i t.polled in
        let quiet = t.poll_alone w'.rows ∙ u.found in
        record {
          row =
              if holds (is_stuck r.poll.now) (some u.row) && r.poll.sent i
              then touched (r.poll.stamp i) u.row
              else u.row;
          found = ground (arith, rows, quiet, u.found);
          columns = ground (arith, u.columns);
          alerts = ap (any (is_about i)) (poll-alerts r.poll w') ∙ u.alerts;
        }

    -- A check that does not find the order dead leaves it.
    check-Unseen :
        (r : Round T) (w' : World T)
        → IsTimely i r
        → holds (is_dead r.check.now) (T.find i w'.rows) ≡ false
        → Unseen i o w w'
        → Unseen i o w (check_and_alert_dead_orders r.check w').1
    check-Unseen r w' t alive u =
        let (_, rows, alerts, _) = check_effects r.check w' i t.checked in
        record {
          row = u.row;
          found = ground (arith, rows, alive, t.check_alone w'.rows, u.found);
          columns = u.columns;
          alerts = ground (arith, alerts, alive, u.alerts);
        }

    pub watch-Unseen :
        (rs : List (Round T)) (w' : World T)
        → is_left o ≡ true
        → AllTimely i rs
        → Unseen i o w w'
        → Unseen i o w (watch rs w')
    unfolding watch
    watch-Unseen [] w' left timely u = u
    watch-Unseen (r ∷ rs) w' left (t, timely) u =
        let left' : is_left u.row ≡ true = ground (arith, u.columns) in
        let alive =
          poll_hides_dead r.poll w' i u.row t.polled u.found (t.poll_alone w'.rows ∙ u.found) left'
            t.sent t.fresh r.check.now t.soon in
        let polled = (poll_and_dispatch_orders r.poll w').1 in
        watch-Unseen rs (check_and_alert_dead_orders r.check polled).1 left timely
          (check-Unseen r polled t alive (poll-Unseen r w' t u))

  -- Let an order have a step in SUCCESS, and let no one but the scheduler change its row. Through
  -- any number of rounds of a poll and a check for dead orders, each check at most 3540 seconds
  -- behind its poll, where the jobs work and each poll's job for the order, if any, is enqueued,
  -- the order keeps its statuses and no alert about it is sent, however long it has been in
  -- COMPENSATING.
  watch_never_alerts :
      (i : ℕ) (o : Order) (w : World T)
      → T.find i w.rows ≡ some o
      → is_left o ≡ true
      → (rs : List (Round T)) → AllTimely i rs
      → Unseen i o w (watch rs w)
  watch_never_alerts i o w found left rs timely =
      watch-Unseen i o w rs w left timely
        (record { row = o; found = found; columns = refl; alerts = refl })
