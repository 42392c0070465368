-- ===== src/Worker/Cron.antt =====
-- What the cron jobs and the force-cancel leave of one row and of the forward jobs, whatever fails,
-- when nothing else happens meanwhile.
use saga_orchestrator_patter.Base.{
  ℕ, ◌≡◌, refl, ◌∙◌, true, ◌⊎◌, some, List, [], ◌∷◌, arith, ◌==◌, if◌then◌else◌,
}
use saga_orchestrator_patter.Models.Enums.{is_compensating, is_manual}
use saga_orchestrator_patter.Models.Order.{Order}
use saga_orchestrator_patter.Table.{OrderTable}
use saga_orchestrator_patter.World.Jobs.{Function}
use saga_orchestrator_patter.World.Effects.{World}
use saga_orchestrator_patter.Scheduler.Updates.{marked, mark_all, find-mark_all, find-update}
use saga_orchestrator_patter.Scheduler.{
  PollEnv, DeadEnv, dispatch, alert_all, poll_and_dispatch_orders, check_and_alert_dead_orders,
  is_stuck, is_dead, sync_manual_intervention_gauge,
}
use saga_orchestrator_patter.Orders.Endpoint.{ForceEnv, force_cancel, force_cancelled}
use saga_orchestrator_patter.Worker.Forward.{count}

module _ {T : OrderTable} (env : PollEnv T) (f : Function) (i : ℕ) where
  count-dispatch :
      (os : List Order) (w : World T) → count f i (dispatch env os w).jobs ≡ count f i w.jobs
  unfolding dispatch
  count-dispatch [] w = refl
  count-dispatch (o ∷ os) w = count-dispatch os _ ∙ ground arith

  pub count-poll :
      (w : World T) → count f i (poll_and_dispatch_orders env w).1.jobs ≡ count f i w.jobs
  unfolding poll_and_dispatch_orders sync_manual_intervention_gauge
  count-poll w =
      let stuck = if env.fetched then T.select (is_stuck env.now) w.rows else [] in
      ground (arith, count-dispatch stuck w)

module _ {T : OrderTable} (env : DeadEnv T) where
  alert_all-jobs : (os : List Order) (w : World T) → (alert_all env os w).jobs ≡ w.jobs
  unfolding alert_all
  alert_all-jobs [] w = refl
  alert_all-jobs (o ∷ os) w = alert_all-jobs os _ ∙ ground arith

  alert_all-rows : (os : List Order) (w : World T) → (alert_all env os w).rows ≡ w.rows
  unfolding alert_all
  alert_all-rows [] w = refl
  alert_all-rows (o ∷ os) w = alert_all-rows os _ ∙ ground arith

  pub check-jobs : (w : World T) → (check_and_alert_dead_orders env w).1.jobs ≡ w.jobs
  unfolding check_and_alert_dead_orders sync_manual_intervention_gauge
  check-jobs w = ground (arith, alert_all-jobs (T.select (is_dead env.now) w.rows) w)

  module _ (alone : (rows : T.Rows) → env.meanwhile rows ≡ rows) (w : World T) where
    check_rows :
        let dead = T.select (is_dead env.now) w.rows in
        ((check_and_alert_dead_orders env w).1.rows ≡ w.rows)
        ⊎ ((check_and_alert_dead_orders env w).1.rows ≡ mark_all T env.flushed_at dead w.rows)
    unfolding check_and_alert_dead_orders sync_manual_intervention_gauge
    check_rows =
        let dead = T.select (is_dead env.now) w.rows in
        ground (arith, alone w.rows, alert_all-rows dead w)

    -- A row is marked only if it was in COMPENSATING.
    pub check-row :
        (i : ℕ) (o : Order)
        → T.find i w.rows ≡ some o
        → (T.find i (check_and_alert_dead_orders env w).1.rows ≡ some o)
          ⊎ ((is_compensating o.global_status ≡ true)
              × (T.find i (check_and_alert_dead_orders env w).1.rows
                  ≡ some (marked env.flushed_at o)))
    unfolding is_dead
    check-row i o found =
        let dead = T.select (is_dead env.now) w.rows in
        ground (
          arith,
          check_rows,
          find-mark_all T env.flushed_at dead i w.rows,
          T.keyed-select (is_dead env.now) i w.rows,
        )

module _ {T : OrderTable} (env : ForceEnv T) (id : ℕ) (w : World T) where
  pub count-cancel :
      (f : Function) (i : ℕ) → count f i (force_cancel env id w).1.jobs ≡ count f i w.jobs
  unfolding force_cancel
  count-cancel f i = ground arith

  pub cancel-row :
      ((rows : T.Rows) → env.meanwhile rows ≡ rows)
      → (i : ℕ) (o : Order) → T.find i w.rows ≡ some o
      → (T.find i (force_cancel env id w).1.rows ≡ some o)
        ⊎ (((id == i) ≡ true)
            × (is_manual o.global_status ≡ true)
            × (T.find i (force_cancel env id w).1.rows ≡ some (force_cancelled env.now o)))
  unfolding force_cancel
  cancel-row alone i o found =
      ground (arith, alone w.rows, find-update T (force_cancelled env.now) (λ _. refl) id i w.rows)
