-- ===== src/Tasks/Compensation/Laws.antt =====
-- What a compensation does, on every reply of the outside world.
use saga_orchestrator_patter.Base.{
  ℕ, ◌+◌, ◌<◌, ◌≡◌, Bool, true, false, ◌⊎◌, inl, inr, some, List, ◌∷◌, ◌∙◌, refl, arith, none,
  Option-cases,
}
use saga_orchestrator_patter.Models.Enums.{is_success}
use saga_orchestrator_patter.Models.Order.{Order}
use saga_orchestrator_patter.Table.{OrderTable}
use saga_orchestrator_patter.World.Jobs.{Service, Action, Post, refund, release, cancel, retry_job}
use saga_orchestrator_patter.World.Metrics.{compensation_attempted, record_execution}
use saga_orchestrator_patter.World.Effects.{
  Outcome, returned, raised, Commit, World, measure, commit,
}
use saga_orchestrator_patter.Tasks.Compensation.Row.{Undo, has_pending, undo_of, begin_row}
use saga_orchestrator_patter.Tasks.Compensation.{
  CompensationEnv, compensation, end_phase, call_services, go_on,
}

undo_call : Bool → Service → Action → ℕ → List Post → List Post
undo_call true s a id calls = record { service = s; order_id = id; action = a } ∷ calls
undo_call false s a id calls = calls

-- The rollback calls that the statuses of a row ask for: one for each step that succeeded.
unfoldable pub undo_calls : Undo → ℕ → List Post → List Post
unfolding undo_call
undo_calls u id calls = undo_call u.logistics Service.logistics cancel id (
    undo_call u.inventory Service.inventory release id
      (undo_call u.billing Service.billing refund id calls))

-- The rollbacks that an order calls for, by its status columns: the refund, the release and the
-- cancellation for billing, inventory and logistics in SUCCESS.
unfoldable pub rollbacks : Order → ℕ → List Post → List Post
unfolding undo_call
rollbacks o id calls = undo_call (is_success o.logistics_status) Service.logistics cancel id (
    undo_call (is_success o.inventory_status) Service.inventory release id
      (undo_call (is_success o.billing_status) Service.billing refund id calls))

pub undo_calls-rollbacks :
    (o : Order) (id : ℕ) (calls : List Post)
    → undo_calls (undo_of o) id calls ≡ rollbacks o id calls
unfolding undo_calls rollbacks
undo_calls-rollbacks o id calls = refl

-- The last session, in whatever state the table is then.
module _ {T : OrderTable} (env : CompensationEnv T) (id retry : ℕ) (u : Undo) (w : World T) where
  pub end_phase-posts : (end_phase env id retry u w).1.posts ≡ w.posts
  unfolding end_phase commit
  end_phase-posts = ground arith

  end_phase-jobs :
      ((end_phase env id retry u w).1.jobs ≡ w.jobs)
      ⊎ (((end_phase env id retry u w).1.jobs ≡ retry_job id (retry + 1) env.finished_at ∷ w.jobs)
          × (retry < 4))
  unfolding end_phase commit
  end_phase-jobs = ground arith

module _ {T : OrderTable} (env : CompensationEnv T) (id retry : ℕ) (u : Undo) where
  pub call_services-posts :
      (w : World T) → (call_services env id u w).posts ≡ undo_calls u id w.posts
  unfolding call_services undo_calls
  call_services-posts w = ground arith

  pub call_services-jobs : (w : World T) → (call_services env id u w).jobs ≡ w.jobs
  unfolding call_services
  call_services-jobs w = ground arith

  go_on-posts :
      (r : Outcome × World T)
      → ((go_on env id retry u r).1.posts ≡ r.1.posts)
        ⊎ ((go_on env id retry u r).1.posts ≡ undo_calls u id r.1.posts)
  unfolding go_on
  go_on-posts (raised, w) = inl refl
  go_on-posts (returned, w) =
      inr (end_phase-posts env id retry u (call_services env id u w) ∙ call_services-posts w)

  go_on-jobs :
      (r : Outcome × World T)
      → ((go_on env id retry u r).1.jobs ≡ r.1.jobs)
        ⊎ (((go_on env id retry u r).1.jobs ≡ retry_job id (retry + 1) env.finished_at ∷ r.1.jobs)
            × (retry < 4))
  unfolding go_on
  go_on-jobs (raised, w) = inl refl
  go_on-jobs (returned, w) =
      ground (arith, end_phase-jobs env id retry u (call_services env id u w), call_services-jobs w)

module _ {T : OrderTable} (c : Commit) (now : ℕ) (o o' : Order) (w : World T) where
  pub commit-posts : (commit c now o o' w).1.posts ≡ w.posts
  unfolding commit
  commit-posts = ground arith

  pub commit-jobs : (commit c now o o' w).1.jobs ≡ w.jobs
  unfolding commit
  commit-jobs = ground arith

module _ {T : OrderTable} (env : CompensationEnv T) (id retry : ℕ) (w : World T) (o : Order) where
  unfoldable pub begun : Outcome × World T
  begun =
      commit env.began env.started_at o (begin_row env.started_at o)
        (measure (record_execution compensation_attempted) w)

  -- A compensation of an order that exists and has a PENDING step leaves the table, the jobs, the
  -- calls and the alerts as they were, whatever the database answers.
  pub compensation_defers :
      T.find id w.rows ≡ some o
      → has_pending o ≡ true
      → ((compensation env id retry w).1.rows ≡ w.rows)
        × ((compensation env id retry w).1.jobs ≡ w.jobs)
        × ((compensation env id retry w).1.posts ≡ w.posts)
        × ((compensation env id retry w).1.alerts ≡ w.alerts)
  unfolding compensation
  compensation_defers found waits = ground arith

  -- Whatever fails, a compensation of an order that exists calls either no service at all, or
  -- exactly the rollbacks that the row asks for which it locked: the refund, the release and the
  -- cancellation for billing, inventory and logistics in SUCCESS.
  pub compensation_posts :
      T.find id w.rows ≡ some o
      → ((compensation env id retry w).1.posts ≡ w.posts)
        ⊎ ((compensation env id retry w).1.posts ≡ rollbacks o id w.posts)
  unfolding compensation begun
  compensation_posts found = ground (
    arith,
    undo_calls-rollbacks o id w.posts,
    go_on-posts env id retry (undo_of o) begun,
    commit-posts env.began env.started_at o (begin_row env.started_at o)
        (measure (record_execution compensation_attempted) w),
  )

  pub compensation_retries :
      T.find id w.rows ≡ some o
      → ((compensation env id retry w).1.jobs ≡ w.jobs)
        ⊎ (((compensation env id retry w).1.jobs
              ≡ retry_job id (retry + 1) env.finished_at ∷ w.jobs)
            × (retry < 4))
  unfolding compensation begun
  compensation_retries found = ground (
    arith,
    go_on-jobs env id retry (undo_of o) begun,
    commit-jobs env.began env.started_at o (begin_row env.started_at o)
        (measure (record_execution compensation_attempted) w),
  )

module _ {T : OrderTable} (env : CompensationEnv T) (id retry : ℕ) (w : World T) where
  compensation_missing : T.find id w.rows ≡ none → (compensation env id retry w).1.jobs ≡ w.jobs
  unfolding compensation
  compensation_missing missing = ground arith

  -- Whatever fails, a compensation either leaves the jobs as they were or adds one job, its own
  -- retry with the next number, and the latter only if its number is below 4.
  pub compensation_retry_bound :
      ((compensation env id retry w).1.jobs ≡ w.jobs)
      ⊎ (((compensation env id retry w).1.jobs ≡ retry_job id (retry + 1) env.finished_at ∷ w.jobs)
          × (retry < 4))
  compensation_retry_bound = elim (Option-cases (T.find id w.rows)) [
    | inl missing ↦ inl (compensation_missing missing)
    | inr (o, found) ↦ compensation_retries env id retry w o found
  ]
