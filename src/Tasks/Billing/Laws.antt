-- ===== src/Tasks/Billing/Laws.antt =====
-- What a run of billing does, on every reply of the outside world.
use saga_orchestrator_patter.Base.{
  ℕ, ◌≡◌, Bool, true, false, some, List, ◌∷◌, arith, ◌==◌, if◌then◌else◌,
}
use saga_orchestrator_patter.Models.Enums.{
  SagaStepStatus, success, skipped, failed, cancelled, compensating, PaymentWay, prepayment,
  postpayment,
}
use saga_orchestrator_patter.Models.Order.{
  Order, flush, flush-billing, flush-inventory, flush-logistics, flush-global, flush-id,
}
use saga_orchestrator_patter.Table.{OrderTable, find-write_self}
use saga_orchestrator_patter.World.Jobs.{
  HttpResult, response, Job, inventory_job, logistic_job, compensation_job,
}
use saga_orchestrator_patter.World.Effects.{returned, committed, World, commit, rescue}
use saga_orchestrator_patter.Tasks.Billing.Row.{Attempt, attempt, billing_row}
use saga_orchestrator_patter.Tasks.Billing.{BillingEnv, process_billing, write_phase}

-- No call to the database or the broker fails.
pub record IsHealthy {T : OrderTable} (env : BillingEnv T) : Type 0 where
  pub read : env.read ≡ true
  pub reread : env.reread ≡ true
  pub inventory_sent : env.inventory_sent ≡ true
  pub logistic_sent : env.logistic_sent ≡ true
  pub compensation_sent : env.compensation_sent ≡ true
  pub committed : env.committed ≡ committed

-- The order need not be paid in advance, or the service answered 200.
abbrev pub is_settled : PaymentWay → HttpResult → Bool
is_settled postpayment r = true
is_settled prepayment (response code) = code == 200
is_settled prepayment _ = false

abbrev settled_status : PaymentWay → SagaStepStatus
settled_status postpayment = skipped
settled_status prepayment = success

-- The columns and the jobs that billing must leave behind.
pub record HandsOn (way : PaymentWay) (o o' : Order) (id : ℕ) (before after : List Job)
    : Type 0 where
  pub billing : o'.billing_status ≡ settled_status way
  pub inventory : o'.inventory_status ≡ o.inventory_status
  pub logistics : o'.logistics_status ≡ o.logistics_status
  pub global : o'.global_status ≡ o.global_status
  pub jobs : after ≡ logistic_job id ∷ inventory_job id ∷ before

pub record GivesUp (o' : Order) (id : ℕ) (before after : List Job) : Type 0 where
  pub billing : o'.billing_status ≡ failed
  pub inventory : o'.inventory_status ≡ cancelled
  pub logistics : o'.logistics_status ≡ cancelled
  pub global : o'.global_status ≡ compensating
  pub jobs : after ≡ compensation_job id ∷ before

-- One or the other, by whether the charge is settled.
pub record Settles (way : PaymentWay) (r : HttpResult) (o o' : Order) (id : ℕ)
    (before after : List Job) : Type 0 where
  pub settled : is_settled way r ≡ true → HandsOn way o o' id before after
  pub unsettled : is_settled way r ≡ false → GivesUp o' id before after

billing_row-id : (a : Attempt) (o : Order) → o.id ≡ (billing_row a o).id
unfolding billing_row
billing_row-id a o = ground arith

module _ (now : ℕ) (r : HttpResult) (o o' : Order) where
  -- What the second session writes for the row `o'`, after the first has read `o`.
  unfoldable pub written : Order
  written = flush now o' (billing_row (attempt o.payment_type r) o')

  pub written-id : written.id ≡ o'.id
  unfolding written billing_row
  written-id = ground (arith, flush-id now o' (billing_row (attempt o.payment_type r) o'))

  written-Settles :
      (id : ℕ) (jobs : List Job)
      → Settles o.payment_type r o' written id jobs (
          if is_settled o.payment_type r
          then logistic_job id ∷ inventory_job id ∷ jobs
          else compensation_job id ∷ jobs)
  unfolding written billing_row attempt
  written-Settles id jobs =
      let new = billing_row (attempt o.payment_type r) o' in
      ground (
        arith,
        flush-billing now o' new,
        flush-inventory now o' new,
        flush-logistics now o' new,
        flush-global now o' new,
      )

module _ {T : OrderTable} (env : BillingEnv T) (id : ℕ) (w : World T) (o o' : Order) where
  process_billing_run :
      IsHealthy env
      → T.find id w.rows ≡ some o
      → T.find id (env.meanwhile w.rows) ≡ some o'
      → ((process_billing env id w).0 ≡ returned)
        × ((process_billing env id w).1.rows
            ≡ T.write (written env.now env.response o o') (env.meanwhile w.rows))
        × ((process_billing env id w).1.jobs ≡ (
            if is_settled o.payment_type env.response
            then logistic_job id ∷ inventory_job id ∷ w.jobs
            else compensation_job id ∷ w.jobs))
  unfolding process_billing write_phase commit rescue attempt written
  process_billing_run h f g = ground arith

  -- If no call to the database or the broker fails and the order exists in both sessions, then
  -- billing returns; on a postpaid order or an answer 200 it writes SKIPPED or SUCCESS, keeps the
  -- other statuses and enqueues inventory and logistics; else it writes FAILED, cancels the two
  -- other steps, moves the order to COMPENSATING and enqueues one compensation.
  pub process_billing-Settles :
      IsHealthy env
      → T.find id w.rows ≡ some o
      → T.find id (env.meanwhile w.rows) ≡ some o'
      → (row : Order) × (T.find id (process_billing env id w).1.rows ≡ some row)
        × ((process_billing env id w).0 ≡ returned)
        × Settles o.payment_type env.response o' row id w.jobs (process_billing env id w).1.jobs
  process_billing-Settles h f g =
      let (done, rows, jobs) = process_billing_run h f g in
      (
        written env.now env.response o o',
        rw rows (
            find-write_self T o' (written env.now env.response o o') id (env.meanwhile w.rows) g
              (written-id env.now env.response o o')),
        done,
        rw jobs (written-Settles env.now env.response o o' id w.jobs),
      )
