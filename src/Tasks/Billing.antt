-- ===== src/Tasks/Billing.antt =====
-- src/workers/saga_tasks/billing.py: charge the order, then hand it on or compensate it.
pub mod Row
pub mod Laws
pub mod Safety
use saga_orchestrator_patter.Base.{
  ℕ, Bool, true, false, ◌&&◌, ◌||◌, Option, none, some, if◌then◌else◌,
}
use saga_orchestrator_patter.Models.Enums.{SagaStepStatus, PaymentWay}
use saga_orchestrator_patter.Models.Order.{Order}
use saga_orchestrator_patter.Table.{OrderTable}
use saga_orchestrator_patter.World.Jobs.{
  HttpResult, Post, Service, execute, billing_job, inventory_job, logistic_job, compensation_job,
}
use saga_orchestrator_patter.World.Metrics.{Step, record_step_status, observe_step_duration}
use saga_orchestrator_patter.World.Effects.{
  Outcome, returned, raised, Commit, World, post, enqueue, measure, commit, rescue,
}
use saga_orchestrator_patter.Tasks.Billing.Row.{
  Attempt, attempt, posts_charge, proceeds, billing_row,
}

-- The replies of the outside world to one run, and the transactions that others commit while the
-- billing service is called.
pub record BillingEnv (T : OrderTable) : Type 0 where
  pub read : Bool
  pub response : HttpResult
  pub meanwhile : T.Rows → T.Rows
  pub reread : Bool
  pub inventory_sent : Bool
  pub logistic_sent : Bool
  pub compensation_sent : Bool
  pub committed : Commit
  pub now : ℕ
  pub rescue_sent : Bool

module _ {T : OrderTable} where
  -- `asyncio.gather` starts both calls, and raises if one does
  hand_on : BillingEnv T → ℕ → Order → Order → World T → Outcome × World T
  hand_on env id old new w =
      let sent =
        enqueue env.logistic_sent (logistic_job id)
          (enqueue env.inventory_sent (inventory_job id) w) in
      if env.inventory_sent && env.logistic_sent
      then commit env.committed env.now old new sent
      else (raised, sent)

  give_up : BillingEnv T → ℕ → Order → Order → World T → Outcome × World T
  give_up env id old new w =
      if env.compensation_sent
      then commit env.committed env.now old new (enqueue true (compensation_job id) w)
      else (raised, w)

  write_found : BillingEnv T → ℕ → Attempt → Option Order → World T → Outcome × World T
  unfolding hand_on give_up
  write_found env id a none w = (returned, w)
  write_found env id a (some o) w =
      if proceeds a
      then hand_on env id o (billing_row a o) w
      else give_up env id o (billing_row a o) w

  -- The second session, which holds the row's lock until it commits.
  unfoldable pub write_phase : BillingEnv T → ℕ → Attempt → World T → Outcome × World T
  unfolding write_found
  write_phase env id a w =
      if env.reread then write_found env id a (T.find id w.rows) w else (raised, w)

  charge : BillingEnv T → ℕ → Order → World T → World T
  charge env id o w =
      let a = attempt o.payment_type env.response in
      let called =
        if posts_charge o.payment_type
        then post (record { service = Service.billing; order_id = id; action = execute }) w
        else w in
      measure (record_step_status Step.billing a.billing_status) called

  read_found : BillingEnv T → ℕ → Option Order → World T → Outcome × World T
  unfolding charge
  read_found env id none w = (returned, w)
  read_found env id (some o) w =
      let w' = charge env id o w in
      write_phase env id (attempt o.payment_type env.response)
        (record w' { rows = env.meanwhile w'.rows })

  billing_body : BillingEnv T → ℕ → World T → Outcome × World T
  unfolding read_found
  billing_body env id w = if env.read then read_found env id (T.find id w.rows) w else (raised, w)

  observed : Outcome × World T → Outcome × World T
  observed (out, w) = (out, measure (observe_step_duration Step.billing) w)

  unfoldable pub process_billing : BillingEnv T → ℕ → World T → Outcome × World T
  unfolding billing_body observed
  process_billing env id w = rescue env.rescue_sent id (observed (billing_body env id w))
