-- ===== src/Worker/Recovery.antt =====
-- From the poll to the worker: an order that is stuck in COMPENSATING, the job that the scheduler
-- enqueues for it, and the run of that job.
use mathlib.Core.Path.{subst}
use saga_orchestrator_patter.Base.{
  ℕ, zero, suc, ◌≡◌, refl, ◌∙◌, ap, Bool, true, false, some, List, [], ◌∷◌, arith, length, ◌==◌,
  if◌then◌else◌, Bool-cases, Option-cases, inl, inr,
}
use saga_orchestrator_patter.Models.Enums.{
  SagaStepStatus, OrderGlobalStatus, success, compensated, is_success,
}
use saga_orchestrator_patter.Models.Order.{
  Order, statuses, flush, flush-billing, flush-inventory, flush-logistics, flush-id,
}
use saga_orchestrator_patter.Table.{OrderTable, find-write_self}
use saga_orchestrator_patter.Table.Rows.{keyed}
use saga_orchestrator_patter.World.Jobs.{Job, dispatch_job, step_status}
use saga_orchestrator_patter.World.Effects.{World, enqueue}
use saga_orchestrator_patter.Tasks.Compensation.Row.{has_pending, begin_row}
use saga_orchestrator_patter.Tasks.Compensation.{CompensationEnv, compensation}
use saga_orchestrator_patter.Tasks.Compensation.Laws.{rollbacks}
use saga_orchestrator_patter.Tasks.Compensation.Settles as Undoing
use saga_orchestrator_patter.Tasks.Compensation.Settles.{Settles, compensation-Settles}
use saga_orchestrator_patter.Scheduler.Updates.{is_some, touched}
use saga_orchestrator_patter.Scheduler.Poll as Poll
use saga_orchestrator_patter.Scheduler.Poll.{poll_effects, selected}
use saga_orchestrator_patter.Scheduler.Stalled.{poll-posts}
use saga_orchestrator_patter.Scheduler.{
  PollEnv, dispatch, poll_and_dispatch_orders, is_stuck, sync_manual_intervention_gauge,
}
use saga_orchestrator_patter.Worker.{TaskEnv, take_job, work, poll, handle}

-- The job is somewhere in the queue.
record Waits (job : Job) (jobs : List Job) : Type 0 where
  place : ℕ
  rest : List Job
  taken : take_job place jobs ≡ some (job, rest)

length-take_job :
    (n : ℕ) (job : Job) (jobs rest : List Job)
    → take_job n jobs ≡ some (job, rest)
    → suc (length rest) ≡ length jobs
length-take_job n job [] rest h = absurd (ground arith)
length-take_job zero job (j ∷ jobs) rest h = ground arith
length-take_job (suc n) job (j ∷ jobs) rest h = elim (Option-cases (take_job n jobs)) [
  | inl gone ↦ absurd (ground arith)
  | inr ((taken, left), found) ↦ ground (arith, length-take_job n taken jobs left)
]

module _ {T : OrderTable} where
  enqueue-Waits :
      (job new : Job) (sent : Bool) (w : World T)
      → Waits job w.jobs
      → Waits job (enqueue sent new w).jobs
  enqueue-Waits job new false w h = h
  enqueue-Waits job new true w h = record {
    place = suc h.place;
    rest = new ∷ h.rest;
    taken = ground (arith, h.taken);
  }

  enqueued :
      (new : Job) (sent : Bool) (w : World T) → sent ≡ true → Waits new (enqueue sent new w).jobs
  enqueued new false w h = absurd (ground arith)
  enqueued new true w h = record { place = 0; rest = w.jobs; taken = refl }

module _ {T : OrderTable} (env : PollEnv T) where
  dispatch-Waits :
      (job : Job) (os : List Order) (w : World T)
      → Waits job w.jobs
      → Waits job (dispatch env os w).jobs
  unfolding dispatch
  dispatch-Waits job [] w h = h
  dispatch-Waits job (o ∷ os) w h =
      let new = dispatch_job o.id (env.stamp o.id) in
      dispatch-Waits job os (enqueue (env.sent o.id) new w)
        (enqueue-Waits job new (env.sent o.id) w h)

  dispatched :
      (i : ℕ) (os : List Order) (w : World T)
      → is_some (keyed i os) ≡ true
      → env.sent i ≡ true
      → Waits (dispatch_job i (env.stamp i)) (dispatch env os w).jobs
  unfolding dispatch
  dispatched i [] w there sent = absurd (ground arith)
  dispatched i (o ∷ os) w there sent =
      let new = dispatch_job o.id (env.stamp o.id) in
      let w' = enqueue (env.sent o.id) new w in
      elim (Bool-cases (o.id == i)) [
        | inl same ↦
            let id : o.id ≡ i = ground arith in
            let done = enqueued new (env.sent o.id) w (rw id sent) in
            subst (λ k. Waits (dispatch_job k (env.stamp k)) (dispatch env os w').jobs) id
              (dispatch-Waits new os w' done)
        | inr other ↦ dispatched i os w' (ground arith) sent
      ]

  poll-jobs :
      (w : World T)
      → Poll.IsHealthy env
      → (poll_and_dispatch_orders env w).1.jobs
        ≡ (dispatch env (T.select (is_stuck env.now) w.rows) w).jobs
  unfolding poll_and_dispatch_orders sync_manual_intervention_gauge
  poll-jobs w h = ground arith

  poll-Waits :
      (i : ℕ) (o : Order) (w : World T)
      → Poll.IsHealthy env
      → T.find i w.rows ≡ some o
      → is_stuck env.now o ≡ true
      → env.sent i ≡ true
      → Waits (dispatch_job i (env.stamp i)) (poll_and_dispatch_orders env w).1.jobs
  poll-Waits i o w h found stuck sent =
      let there : is_some (keyed i (T.select (is_stuck env.now) w.rows)) ≡ true =
        ground (arith, selected env w i, found) in
      rw (poll-jobs w h) (dispatched i (T.select (is_stuck env.now) w.rows) w there sent)

-- What a compensation with all rollbacks answered by 200 makes of a step.
abbrev pub undone_step : SagaStepStatus → SagaStepStatus
undone_step s = if is_success s then compensated else s

module _ {T : OrderTable} (env : CompensationEnv T) (i retry : ℕ) (o : Order) (w : World T) where
  -- The row between the two sessions.
  abbrev begun : Order
  begun = flush env.started_at o (begin_row env.started_at o)

  pub compensation-undone :
      Undoing.IsHealthy env
      → T.find i w.rows ≡ some o
      → has_pending o ≡ false
      → ((rows : T.Rows) → T.find i (env.meanwhile rows) ≡ T.find i rows)
      → step_status env.replies.billing ≡ success
      → step_status env.replies.inventory ≡ success
      → step_status env.replies.logistics ≡ success
      → (row : Order) × (T.find i (compensation env i retry w).1.rows ≡ some row)
        × (statuses row ≡ (
          undone_step o.billing_status,
          undone_step o.inventory_status,
          undone_step o.logistics_status,
          OrderGlobalStatus.cancelled,
        ))
        × ((compensation env i retry w).1.posts ≡ rollbacks o i w.posts)
        × ((compensation env i retry w).1.jobs ≡ w.jobs)
  compensation-undone h found ready alone b v l =
      let between =
        alone (T.write begun w.rows)
        ∙ find-write_self T o begun i w.rows found
            (flush-id env.started_at o (begin_row env.started_at o) refl) in
      let (row, returned, here, posts, s) =
        compensation-Settles env i retry w o begun h found ready between in
      let old = begin_row env.started_at o in
      let billing : row.billing_status ≡ undone_step o.billing_status =
        ground (arith, s.billing, b, flush-billing env.started_at o old) in
      let inventory : row.inventory_status ≡ undone_step o.inventory_status =
        ground (arith, s.inventory, v, flush-inventory env.started_at o old) in
      let logistics : row.logistics_status ≡ undone_step o.logistics_status =
        ground (arith, s.logistics, l, flush-logistics env.started_at o old) in
      let (cancelled, jobs, alerts) =
        s.all_undone (ground (arith, billing, inventory, logistics)) in
      (row, here, ground (arith, billing, inventory, logistics, cancelled), posts, jobs)

module _ {T : OrderTable} (penv : PollEnv T) (tenv : TaskEnv T) (i : ℕ) (o : Order)
    (w : World T) where
  -- Let a poll find an order stuck of which no step is PENDING, and enqueue its job; let no call
  -- to the database or the broker fail, no one else change the row, and the three rollbacks be
  -- answered by 200. Then the queue after the poll has a place from which a worker takes a job
  -- that cancels the order: exactly its steps in SUCCESS become COMPENSATED, the others stay, the
  -- rollbacks of exactly those are called, and the queue is shorter by one job.
  pub poll_recovers :
      Poll.IsHealthy penv
      → T.find i w.rows ≡ some o
      → ((rows : T.Rows) → T.find i (penv.meanwhile rows) ≡ T.find i rows)
      → is_stuck penv.now o ≡ true
      → has_pending o ≡ false
      → penv.sent i ≡ true
      → Undoing.IsHealthy tenv.compensation
      → ((rows : T.Rows) → T.find i (tenv.compensation.meanwhile rows) ≡ T.find i rows)
      → step_status tenv.compensation.replies.billing ≡ success
      → step_status tenv.compensation.replies.inventory ≡ success
      → step_status tenv.compensation.replies.logistics ≡ success
      → (n : ℕ) × (row : Order) × (T.find i (handle (work n tenv) (handle (poll penv) w)).rows
          ≡ some row)
        × (statuses row ≡ (
          undone_step o.billing_status,
          undone_step o.inventory_status,
          undone_step o.logistics_status,
          OrderGlobalStatus.cancelled,
        ))
        × ((handle (work n tenv) (handle (poll penv) w)).posts ≡ rollbacks o i w.posts)
        × (suc (length (handle (work n tenv) (handle (poll penv) w)).jobs)
            ≡ length (handle (poll penv) w).jobs)
  unfolding handle rollbacks
  poll_recovers polled found alone stuck ready sent healthy alone' b v l =
      let w1 = (poll_and_dispatch_orders penv w).1 in
      let o1 = touched (penv.stamp i) o in
      let (_, rows, _, _) = poll_effects penv w i polled in
      let found1 : T.find i w1.rows ≡ some o1 =
        ground (arith, rows, alone w.rows, found, stuck, sent) in
      let job = poll-Waits penv i o w polled found stuck sent in
      let (row, here, columns, posts, jobs) =
        compensation-undone tenv.compensation i 0 o1 (record w1 { jobs = job.rest }) healthy found1
          ready alone' b v l in
      (
        job.place,
        row,
        rw (job.taken) here,
        columns,
        rw (job.taken) (posts ∙ ap (rollbacks o i) (poll-posts penv w i)),
        rw (job.taken, jobs)
            (length-take_job job.place (dispatch_job i (penv.stamp i)) w1.jobs job.rest job.taken),
      )
