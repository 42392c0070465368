-- ===== src/Tasks/Compensation/Settles.antt =====
-- What a compensation settles when no call to the database or the broker fails.
use saga_orchestrator_patter.Base.{
  ℕ, ◌+◌, ◌≤◌, ◌<◌, ◌≡◌, Bool, true, false, some, List, ◌∷◌, arith, leb, if◌then◌else◌, ◌&&◌, ◌∙◌,
  ap,
}
use saga_orchestrator_patter.Models.Enums.{OrderGlobalStatus, manual_intervention_required}
use saga_orchestrator_patter.Models.Order.{Order, flush}
use saga_orchestrator_patter.Table.{OrderTable, find-write_self}
use saga_orchestrator_patter.World.Jobs.{Job, retry_job}
use saga_orchestrator_patter.World.Metrics.{compensation_attempted, record_execution}
use saga_orchestrator_patter.World.Effects.{
  returned, committed, Alert, exhausted_retries, World, measure, commit,
}
use saga_orchestrator_patter.Tasks.Compensation.Row.{has_pending, undo_of, begin_row, is_left}
use saga_orchestrator_patter.Tasks.Compensation.{
  CompensationEnv, compensation, end_phase, call_services, go_on,
}
use saga_orchestrator_patter.Tasks.Compensation.Laws.{
  undo_calls, rollbacks, undo_calls-rollbacks, end_phase-posts,
}
use saga_orchestrator_patter.Tasks.Compensation.Written.{
  settled, closed, written, written-id, written_begin, rolled_back_status, written-billing,
  written-inventory, written-logistics, settled-left, written-global,
}

-- No call to the database or the broker fails.
pub record IsHealthy {T : OrderTable} (env : CompensationEnv T) : Type 0 where
  pub read : env.read ≡ true
  pub began : env.began ≡ committed
  pub reread : env.reread ≡ true
  pub ended : env.ended ≡ committed
  pub retry_sent : env.retry_sent ≡ true

-- What must hold of the row `row` that the last session leaves, where the first session had read
-- `o` and the last has read `o'`, and of the jobs and the alerts.
pub record Settles {T : OrderTable} (env : CompensationEnv T) (id retry : ℕ) (o o' row : Order)
    (w w' : World T) : Type 0 where
  pub billing :
      row.billing_status ≡ rolled_back_status o.billing_status env.replies.billing o'.billing_status
  pub inventory :
      row.inventory_status
      ≡ rolled_back_status o.inventory_status env.replies.inventory o'.inventory_status
  pub logistics :
      row.logistics_status
      ≡ rolled_back_status o.logistics_status env.replies.logistics o'.logistics_status
  pub all_undone :
      is_left row ≡ false
      → (row.global_status ≡ OrderGlobalStatus.cancelled)
        × (w'.jobs ≡ w.jobs)
        × (w'.alerts ≡ w.alerts)
  pub exhausted :
      is_left row ≡ true
      → 4 ≤ retry
      → (row.global_status ≡ manual_intervention_required)
        × (w'.jobs ≡ w.jobs)
        × (w'.alerts ≡ (
            if env.webhook
            then record { order_id = id; reason = exhausted_retries } ∷ w.alerts
            else w.alerts))
  pub retried :
      is_left row ≡ true
      → retry < 4
      → (row.global_status ≡ o'.global_status)
        × (w'.jobs ≡ retry_job id (retry + 1) env.finished_at ∷ w.jobs)
        × (w'.alerts ≡ w.alerts)

-- What the last session leaves in the queue and in the alert channel.
left_jobs : Bool → ℕ → ℕ → ℕ → List Job → List Job
left_jobs left id retry now jobs =
    if left then (if leb 4 retry then jobs else retry_job id (retry + 1) now ∷ jobs) else jobs

left_alerts : Bool → Bool → ℕ → ℕ → List Alert → List Alert
left_alerts left webhook id retry alerts =
    if left && leb 4 retry && webhook
    then record { order_id = id; reason = exhausted_retries } ∷ alerts
    else alerts

module _ {T : OrderTable} (env : CompensationEnv T) (id retry : ℕ) (o o' : Order) where
  final_row : Order
  final_row = written env.finished_at retry o env.replies o'

  left : Bool
  left = is_left (settled env.finished_at retry o env.replies o')

  final_row-id : final_row.id ≡ o'.id
  unfolding final_row
  final_row-id = written-id env.finished_at retry o env.replies o'

  end_phase_run :
      IsHealthy env
      → (w : World T) → T.find id w.rows ≡ some o'
      → ((end_phase env id retry (undo_of o) w).0 ≡ returned)
        × ((end_phase env id retry (undo_of o) w).1.rows ≡ T.write final_row w.rows)
        × ((end_phase env id retry (undo_of o) w).1.jobs
            ≡ left_jobs left id retry env.finished_at w.jobs)
        × ((end_phase env id retry (undo_of o) w).1.alerts
            ≡ left_alerts left env.webhook id retry w.alerts)
  unfolding end_phase commit final_row left written closed left_jobs left_alerts
  end_phase_run h w found = ground arith

  Settles-of_run :
      (w w' : World T)
      → (w'.jobs ≡ left_jobs left id retry env.finished_at w.jobs)
      → (w'.alerts ≡ left_alerts left env.webhook id retry w.alerts)
      → Settles env id retry o o' final_row w w'
  unfolding final_row left left_jobs left_alerts
  Settles-of_run w w' jobs alerts =
      let now = env.finished_at in
      let r = env.replies in
      ground (
        arith,
        written-billing now retry o r o',
        written-inventory now retry o r o',
        written-logistics now retry o r o',
        written-global now retry o r o',
        settled-left now retry o r o',
      )

module _ {T : OrderTable} (env : CompensationEnv T) (id retry : ℕ) (w : World T) (o : Order) where
  -- The world when the rollback calls have come back.
  called : World T
  called =
      call_services env id (undo_of o)
        (record (measure (record_execution compensation_attempted) w) {
          rows = T.write (written_begin env.started_at o) w.rows;
        })

  called_fields :
      (called.rows ≡ env.meanwhile (T.write (written_begin env.started_at o) w.rows))
      × (called.jobs ≡ w.jobs)
      × (called.alerts ≡ w.alerts)
      × (called.posts ≡ undo_calls (undo_of o) id w.posts)
  unfolding called call_services undo_calls
  called_fields = ground arith

  compensation_unrolls :
      IsHealthy env
      → T.find id w.rows ≡ some o
      → has_pending o ≡ false
      → let r = end_phase env id retry (undo_of o) called in
        ((compensation env id retry w).0 ≡ r.0)
        × ((compensation env id retry w).1.rows ≡ r.1.rows)
        × ((compensation env id retry w).1.jobs ≡ r.1.jobs)
        × ((compensation env id retry w).1.alerts ≡ r.1.alerts)
        × ((compensation env id retry w).1.posts ≡ r.1.posts)
  unfolding compensation go_on commit called written_begin
  compensation_unrolls h found ready = ground arith

  -- If no call to the database or the broker fails, no step of the row read first is PENDING and
  -- the order still exists for the last session, then the compensation returns, has called the
  -- rollback of exactly the steps that had succeeded, marks as COMPENSATED exactly those whose
  -- rollback answered 200, and then cancels the order (nothing left in SUCCESS), hands it to an
  -- admin with an alert if a webhook is set (something left, attempt 4 or later), or enqueues its
  -- own retry with the next number.
  pub compensation-Settles :
      (o' : Order)
      → IsHealthy env
      → T.find id w.rows ≡ some o
      → has_pending o ≡ false
      → T.find id
          (env.meanwhile (T.write (flush env.started_at o (begin_row env.started_at o)) w.rows))
        ≡ some o'
      → (row : Order) × ((compensation env id retry w).0 ≡ returned)
        × (T.find id (compensation env id retry w).1.rows ≡ some row)
        × ((compensation env id retry w).1.posts ≡ rollbacks o id w.posts)
        × Settles env id retry o o' row w (compensation env id retry w).1
  unfolding written_begin
  compensation-Settles o' h found ready here =
      let (out, rows, jobs, alerts, posts) = compensation_unrolls h found ready in
      let (rows0, jobs0, alerts0, posts0) = called_fields in
      let here' : T.find id called.rows ≡ some o' = rw rows0 here in
      let (out1, rows1, jobs1, alerts1) = end_phase_run env id retry o o' h called here' in
      let new = final_row env id retry o o' in
      (
        new,
        out ∙ out1,
        rw (rows, rows1)
            (find-write_self T o' new id called.rows here' (final_row-id env id retry o o')),
        posts
            ∙ end_phase-posts env id retry (undo_of o) called
            ∙ posts0
            ∙ undo_calls-rollbacks o id w.posts,
        Settles-of_run env id retry o o' w (compensation env id retry w).1
            (jobs ∙ jobs1 ∙ ap (left_jobs (left env id retry o o') id retry env.finished_at) jobs0)
            (alerts
              ∙ alerts1
              ∙ ap (left_alerts (left env id retry o o') env.webhook id retry) alerts0),
      )
