-- ===== src/Scheduler.antt =====
-- src/workers/scheduler.py: the two cron jobs and the gauge. Their sessions lock no row, so other
-- transactions may commit between the SELECT and the UPDATE, which sets only the changed columns.
pub mod Updates
pub mod Poll
pub mod Dead
pub mod Watch
pub mod Timetable
pub mod Stalled
use saga_orchestrator_patter.Base.{
  ℕ, suc, ◌+◌, Bool, true, false, ◌&&◌, ◌||◌, List, [], ◌∷◌, length, ltb, if◌then◌else◌,
}
use saga_orchestrator_patter.Models.Enums.{
  is_pending, is_success, is_processing, is_compensating, is_manual, manual_intervention_required,
}
use saga_orchestrator_patter.Models.Order.{Order}
use saga_orchestrator_patter.Table.{OrderTable}
use saga_orchestrator_patter.World.Jobs.{dispatch_job}
use saga_orchestrator_patter.World.Metrics.{record_final_status_transition}
use saga_orchestrator_patter.World.Effects.{
  Outcome, returned, raised, Commit, committed, rolled_back, lost, World, enqueue, measure,
  send_critical_alert, stuck_over_an_hour,
}
use saga_orchestrator_patter.Scheduler.Updates.{touch_all, mark_all}

abbrev pub default_stuck_timeout_seconds : ℕ
default_stuck_timeout_seconds = 60

-- The WHERE clause of `get_stuck_orders_for_compensation` (src/db/repositories/order.py), at time
-- `now`. The threshold is moved to the other side of the comparison: ℕ has no negative numbers.
unfoldable pub is_stuck : ℕ → Order → Bool
is_stuck now o =
    ((is_processing o.global_status
        && (is_pending o.billing_status
            || is_pending o.inventory_status
            || is_pending o.logistics_status))
      || (is_compensating o.global_status
          && (is_success o.billing_status
              || is_success o.inventory_status
              || is_success o.logistics_status)))
    && ltb (o.updated_at + default_stuck_timeout_seconds) now

-- The WHERE clause of `check_and_alert_dead_orders`: an hour is 3600 seconds.
unfoldable pub is_dead : ℕ → Order → Bool
is_dead now o = is_compensating o.global_status && ltb (o.updated_at + 3600) now

-- The WHERE clause of `sync_manual_intervention_gauge`.
abbrev pub needs_manual : Order → Bool
needs_manual o = is_manual o.global_status

module _ {T : OrderTable} where
  -- `select(func.count(Order.id))` may fail, and then the gauge stays.
  unfoldable pub sync_manual_intervention_gauge : Bool → World T → Outcome × World T
  sync_manual_intervention_gauge read w =
      if read
      then (
        returned,
        measure (λ m. record m { stuck_current = length (T.select needs_manual w.rows) }) w,
      )
      else (raised, w)

  and_then : Outcome × World T → (World T → Outcome × World T) → Outcome × World T
  and_then (returned, w) f = f w
  and_then (raised, w) f = (raised, w)

  -- `await session.commit()`, with the statements that it flushes.
  apply_commit : Commit → (T.Rows → T.Rows) → World T → Outcome × World T
  apply_commit Commit.committed statements w = (returned, record w { rows = statements w.rows })
  apply_commit rolled_back statements w = (raised, w)
  apply_commit lost statements w = (raised, record w { rows = statements w.rows })

-- The replies to one poll: `sent` and `stamp` answer for each order's id.
pub record PollEnv (T : OrderTable) : Type 0 where
  pub fetched : Bool
  pub now : ℕ
  pub sent : ℕ → Bool
  pub stamp : ℕ → ℕ
  pub meanwhile : T.Rows → T.Rows
  pub committed : Commit
  pub gauge_read : Bool

module _ {T : OrderTable} where
  -- The loop over the stuck orders: a failed call to the broker leaves its order as it is.
  unfoldable pub dispatch : PollEnv T → List Order → World T → World T
  dispatch env [] w = w
  dispatch env (o ∷ rest) w =
      dispatch env rest (enqueue (env.sent o.id) (dispatch_job o.id (env.stamp o.id)) w)

  unfoldable pub poll_and_dispatch_orders : PollEnv T → World T → Outcome × World T
  unfolding and_then apply_commit
  poll_and_dispatch_orders env w =
      let stuck = if env.fetched then T.select (is_stuck env.now) w.rows else [] in
      let w' = dispatch env stuck w in
      and_then
        (apply_commit env.committed (touch_all T env.sent env.stamp stuck)
          (record w' { rows = env.meanwhile w'.rows }))
        (sync_manual_intervention_gauge env.gauge_read)

-- The replies to one check for dead orders.
pub record DeadEnv (T : OrderTable) : Type 0 where
  pub fetched : Bool
  pub now : ℕ
  pub webhook : Bool
  pub meanwhile : T.Rows → T.Rows
  pub committed : Commit
  pub flushed_at : ℕ
  pub gauge_read : Bool

module _ {T : OrderTable} where
  -- The loop over the dead orders: an alert and a metric for each.
  unfoldable pub alert_all : DeadEnv T → List Order → World T → World T
  alert_all env [] w = w
  alert_all env (o ∷ rest) w = alert_all env rest (
      measure (record_final_status_transition o.global_status manual_intervention_required)
        (send_critical_alert env.webhook o.id stuck_over_an_hour w))

  -- `if dead_orders: await session.commit()`
  commit_dead : DeadEnv T → List Order → World T → Outcome × World T
  unfolding apply_commit
  commit_dead env [] w = (returned, w)
  commit_dead env (o ∷ rest) w = apply_commit env.committed (mark_all T env.flushed_at (o ∷ rest)) w

  dead_found : DeadEnv T → List Order → World T → Outcome × World T
  unfolding and_then commit_dead
  dead_found env dead w =
      let w' = alert_all env dead w in
      and_then (commit_dead env dead (record w' { rows = env.meanwhile w'.rows }))
        (sync_manual_intervention_gauge env.gauge_read)

  unfoldable pub check_and_alert_dead_orders : DeadEnv T → World T → Outcome × World T
  unfolding dead_found
  check_and_alert_dead_orders env w =
      if env.fetched then dead_found env (T.select (is_dead env.now) w.rows) w else (raised, w)
