-- ===== src/Worker/Deadline.antt =====
-- The scheduler on its cron table, and then a worker: how long an order that is stuck in COMPENSATING
-- waits for the job that cancels it.
use saga_orchestrator_patter.Base.{
  ℕ, suc, ◌+◌, ◌≤◌, ◌≡◌, refl, true, false, some, List, [], ◌∷◌, arith, any, Bool-cases, inl, inr,
}
use saga_orchestrator_patter.Models.Enums.{OrderGlobalStatus, success, is_compensating}
use saga_orchestrator_patter.Models.Order.{Order, statuses}
use saga_orchestrator_patter.Table.{OrderTable}
use saga_orchestrator_patter.World.Jobs.{Function, Job, step_status}
use saga_orchestrator_patter.World.Effects.{World}
use saga_orchestrator_patter.Tasks.Compensation.Row.{has_pending, is_left}
use saga_orchestrator_patter.Tasks.Compensation.{compensation}
use saga_orchestrator_patter.Tasks.Compensation.Settles as Undoing
use saga_orchestrator_patter.Scheduler.{is_stuck}
use saga_orchestrator_patter.Scheduler.Poll.{is_for, is_compensation}
use saga_orchestrator_patter.Scheduler.Timetable.{Arq, Plan, IsPunctual, run_cron}
use saga_orchestrator_patter.Scheduler.Timetable.Deadline.{run_cron-enqueued}
use saga_orchestrator_patter.Scheduler.Timetable.Silence.{run_cron_never_alerts}
use saga_orchestrator_patter.Worker.Recovery.{undone_step, compensation-undone}
use saga_orchestrator_patter.Worker.{TaskEnv, take_job, execute, work, handle}

-- A compensation of the order `i` is somewhere in the queue.
record Queued (i : ℕ) (jobs : List Job) : Type 0 where
  place : ℕ
  job : Job
  rest : List Job
  taken : take_job place jobs ≡ some (job, rest)
  function : job.function ≡ Function.compensation
  order : job.order_id ≡ i

is_compensation→eq : (f : Function) → is_compensation f ≡ true → f ≡ Function.compensation
is_compensation→eq Function.compensation h = refl
is_compensation→eq _ h = absurd (ground arith)

any-Queued : (i : ℕ) (jobs : List Job) → any (is_for i) jobs ≡ true → Queued i jobs
any-Queued i [] h = absurd (ground arith)
any-Queued i (j ∷ jobs) h = elim (Bool-cases (is_for i j)) [
  | inl this ↦ record {
    place = 0;
    job = j;
    rest = jobs;
    taken = refl;
    function = is_compensation→eq j.function (ground arith);
    order = ground arith;
  }
  | inr other ↦
      let q = any-Queued i jobs (ground arith) in
      record {
        place = suc q.place;
        job = q.job;
        rest = j ∷ q.rest;
        taken = ground (arith, q.taken);
        function = q.function;
        order = q.order;
      }
]

execute-compensation :
    {T : OrderTable} (env : TaskEnv T) (f : Function) (job : Job) (i : ℕ) (w : World T)
    → job.function ≡ f
    → f ≡ Function.compensation
    → job.order_id ≡ i
    → execute env job w ≡ (compensation env.compensation i job.retry_count w).1
execute-compensation env f job i w e g h = ground arith

stuck_after :
    (o : Order)
    → is_left o ≡ true
    → is_compensating o.global_status ≡ true
    → is_stuck (o.updated_at + 61) o ≡ true
unfolding is_stuck
stuck_after o left undoing = ground arith

module _ {T : OrderTable} (arq : Arq) (p : Plan T) (tenv : TaskEnv T) (i d : ℕ) (o : Order) (s : ℕ)
    (w : World T) where
  -- Let an order be in COMPENSATING with a step in SUCCESS and none PENDING, and let the scheduler
  -- run by its cron table, second by second, from some second up to a minute after the order's
  -- last update on, where its jobs start at most d seconds late, d up to 3510, their clocks do not
  -- run back, the calls to the database and the broker work and no one else changes the row. After
  -- every run that includes the 90th second after that update, the queue has a place from which a
  -- worker takes a job that, if its calls to the database and the broker work, no one else changes
  -- the row and the three rollbacks are answered by 200, cancels the order: exactly its steps in
  -- SUCCESS become COMPENSATED, and the others stay.
  pub run_cron_recovers :
      IsPunctual i d p
      → T.find i w.rows ≡ some o
      → is_left o ≡ true
      → is_compensating o.global_status ≡ true
      → has_pending o ≡ false
      → s ≤ o.updated_at + 60
      → d ≤ 3510
      → Undoing.IsHealthy tenv.compensation
      → ((rows : T.Rows) → T.find i (tenv.compensation.meanwhile rows) ≡ T.find i rows)
      → step_status tenv.compensation.replies.billing ≡ success
      → step_status tenv.compensation.replies.inventory ≡ success
      → step_status tenv.compensation.replies.logistics ≡ success
      → (late : ℕ) → o.updated_at + 91 ≤ s + late
      → (n : ℕ) × (row : Order) × (T.find i (handle (work n tenv) (run_cron arq p s late w)).rows
          ≡ some row)
        × (statuses row ≡ (
          undone_step o.billing_status,
          undone_step o.inventory_status,
          undone_step o.logistics_status,
          OrderGlobalStatus.cancelled,
        ))
  unfolding handle
  run_cron_recovers on_time found left undoing ready begun prompt healthy alone b v l late after =
      let w' = run_cron arq p s late w in
      let u = run_cron_never_alerts arq p i d o s w on_time found left undoing begun prompt late in
      let q = any-Queued i w'.jobs (
        run_cron-enqueued arq p i d o s w on_time found (stuck_after o left undoing) begun prompt
          late after) in
      let ready' : has_pending u.row ≡ false = ground (arith, u.columns) in
      let (row, here, columns, _, _) =
        compensation-undone tenv.compensation i q.job.retry_count u.row
          (record w' { jobs = q.rest }) healthy u.found ready' alone b v l in
      (
        q.place,
        row,
        rw
            (
              q.taken,
              execute-compensation tenv q.job.function q.job i (record w' { jobs = q.rest }) refl
                  q.function q.order,
            )
            here,
        ground (arith, columns, u.columns),
      )
