-- ===== src/Scheduler/Poll.antt =====
-- What a poll does to every order, and to the queue.
use mathlib.Core.Option
use mathlib.Core.Path.{fun_ext}
use saga_orchestrator_patter.Base.{
  ℕ, ◌+◌, ap, ltb, ◌≡◌, refl, ◌∙◌, Bool, true, false, Option, none, some, List, [], ◌∷◌, arith,
  ◌==◌, ◌&&◌, ◌||◌, any, length, if◌then◌else◌,
}
use saga_orchestrator_patter.Models.Enums.{
  OrderGlobalStatus, processing, compensating, pending, success, manual_intervention_required,
  same_step, same_status,
}
use saga_orchestrator_patter.Models.Order.{Order}
use saga_orchestrator_patter.Table.{OrderTable}
use saga_orchestrator_patter.Table.Rows.{keyed, matching}
use saga_orchestrator_patter.World.Jobs.{Function, Job}
use saga_orchestrator_patter.World.Effects.{returned, committed, World}
use saga_orchestrator_patter.Scheduler.Updates.{touched, is_some, find-touch_all}
use saga_orchestrator_patter.Scheduler.{
  PollEnv, dispatch, poll_and_dispatch_orders, is_stuck, needs_manual,
  sync_manual_intervention_gauge,
}

-- No call to the database fails.
pub record IsHealthy {T : OrderTable} (env : PollEnv T) : Type 0 where
  pub fetched : env.fetched ≡ true
  pub committed : env.committed ≡ committed
  pub gauge_read : env.gauge_read ≡ true

-- There is a row, and it satisfies the condition.
abbrev pub holds : (Order → Bool) → Option Order → Bool
holds p none = false
holds p (some o) = p o

pub is_some-matching :
    (p : Order → Bool) (row : Option Order) → is_some (matching p row) ≡ holds p row
is_some-matching p none = refl
is_some-matching p (some o) = ground arith

pub holds-same :
    {p q : Order → Bool}
    → ((o : Order) → p o ≡ q o)
    → (row : Option Order) → holds p row ≡ holds q row
holds-same same none = refl
holds-same same (some o) = same o

-- An order with something left to do: a PENDING step while the saga goes on, a step in SUCCESS
-- while it is undone.
unfoldable pub is_unfinished : OrderGlobalStatus → Order → Bool
is_unfinished processing o =
    any (same_step pending) (o.billing_status ∷ o.inventory_status ∷ o.logistics_status ∷ [])
is_unfinished compensating o =
    any (same_step success) (o.billing_status ∷ o.inventory_status ∷ o.logistics_status ∷ [])
is_unfinished _ o = false

-- It has something left to do, and no update for more than 60 seconds.
unfoldable pub waits_for_poll : ℕ → Order → Bool
unfolding is_unfinished
waits_for_poll now o = ltb (o.updated_at + 60) now && is_unfinished o.global_status o

waits-is_stuck : (now : ℕ) (o : Order) → waits_for_poll now o ≡ is_stuck now o
unfolding is_stuck waits_for_poll same_step
waits-is_stuck now o = ground arith

needs_manual-same :
    (o : Order) → needs_manual o ≡ same_status o.global_status manual_intervention_required
unfolding same_status
needs_manual-same o = ground arith

pub select-needs_manual :
    (T : OrderTable) (rows : T.Rows)
    → length (T.select needs_manual rows)
      ≡ length (T.select (λ o. same_status o.global_status manual_intervention_required) rows)
select-needs_manual T rows =
    ap (λ (p : Order → Bool). length (T.select p rows)) (fun_ext needs_manual-same)

abbrev pub is_compensation : Function → Bool
is_compensation Function.compensation = true
is_compensation _ = false

-- A compensation of the order `i`.
abbrev pub is_for : ℕ → Job → Bool
is_for i job = job.order_id == i && is_compensation job.function

module _ {T : OrderTable} (env : PollEnv T) where
  pub dispatch-rows : (os : List Order) (w : World T) → (dispatch env os w).rows ≡ w.rows
  unfolding dispatch
  dispatch-rows [] w = refl
  dispatch-rows (o ∷ rest) w = dispatch-rows rest _ ∙ ground arith

  dispatch-jobs :
      (i : ℕ) (os : List Order) (w : World T)
      → any (is_for i) (dispatch env os w).jobs
        ≡ (is_some (keyed i os) && env.sent i) || any (is_for i) w.jobs
  unfolding dispatch
  dispatch-jobs i [] w = refl
  dispatch-jobs i (o ∷ rest) w = dispatch-jobs i rest _ ∙ ground arith

  module _ (w : World T) (i : ℕ) where
    pub selected :
        is_some (keyed i (T.select (is_stuck env.now) w.rows))
        ≡ holds (is_stuck env.now) (T.find i w.rows)
    selected = rw T.keyed-select (is_some-matching (is_stuck env.now) (T.find i w.rows))

    -- The effects of a poll, by the functions of the code.
    pub poll_effects :
        IsHealthy env
        → ((poll_and_dispatch_orders env w).0 ≡ returned)
          × (T.find i (poll_and_dispatch_orders env w).1.rows ≡ (
              if holds (is_stuck env.now) (T.find i w.rows) && env.sent i
              then Option.map (touched (env.stamp i)) (T.find i (env.meanwhile w.rows))
              else T.find i (env.meanwhile w.rows)))
          × (any (is_for i) (poll_and_dispatch_orders env w).1.jobs
              ≡ (holds (is_stuck env.now) (T.find i w.rows) && env.sent i) || any (is_for i) w.jobs)
          × ((poll_and_dispatch_orders env w).1.metrics.stuck_current
              ≡ length (T.select needs_manual (poll_and_dispatch_orders env w).1.rows))
    unfolding poll_and_dispatch_orders sync_manual_intervention_gauge
    poll_effects h =
        let stuck = T.select (is_stuck env.now) w.rows in
        ground (
          arith,
          selected,
          dispatch-rows stuck w,
          dispatch-jobs i stuck w,
          find-touch_all T env.sent env.stamp stuck i (env.meanwhile w.rows),
        )

    -- If no call to the database fails, a poll returns; of each order it changes the row only if
    -- the order was stuck (a step PENDING in PROCESSING or in SUCCESS in COMPENSATING, and no
    -- update for more than 60 seconds) and its job was enqueued, and then only the time of the
    -- last update; it enqueues compensations for exactly those orders; and it sets the gauge to
    -- the number of orders in MANUAL_INTERVENTION_REQUIRED.
    pub poll_touches :
        IsHealthy env
        → ((poll_and_dispatch_orders env w).0 ≡ returned)
          × (T.find i (poll_and_dispatch_orders env w).1.rows ≡ (
              if holds (waits_for_poll env.now) (T.find i w.rows) && env.sent i
              then Option.map {A = Order}
                  (λ o. record o { updated_at = env.stamp i })
                  (T.find i (env.meanwhile w.rows))
              else T.find i (env.meanwhile w.rows)))
          × (any (is_for i) (poll_and_dispatch_orders env w).1.jobs
              ≡ (holds (waits_for_poll env.now) (T.find i w.rows) && env.sent i)
                || any (is_for i) w.jobs)
          × ((poll_and_dispatch_orders env w).1.metrics.stuck_current
              ≡ length (
                  T.select
                    (λ o. same_status o.global_status manual_intervention_required)
                    (poll_and_dispatch_orders env w).1.rows))
    poll_touches h =
        let (returns, rows, jobs, gauge) = poll_effects h in
        let stuck = holds-same (waits-is_stuck env.now) (T.find i w.rows) in
        (
          returns,
          rw stuck rows,
          rw stuck jobs,
          gauge ∙ select-needs_manual T (poll_and_dispatch_orders env w).1.rows,
        )
