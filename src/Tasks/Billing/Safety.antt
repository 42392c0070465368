-- ===== src/Tasks/Billing/Safety.antt =====
-- What billing may leave behind when a call to the database or the broker fails.
use mathlib.Core.List.{head?}
use saga_orchestrator_patter.Base.{
  ℕ, ◌≡◌, ◌≢◌, Bool, true, false, ◌⊎◌, inl, inr, Option, none, some, arith, if◌then◌else◌, keep,
  Option-cases, ap, ◌∙◌,
}
use saga_orchestrator_patter.Models.Order.{Order}
use saga_orchestrator_patter.Table.{OrderTable, find-write_other}
use saga_orchestrator_patter.World.Jobs.{Function, Job, compensation_job}
use saga_orchestrator_patter.World.Effects.{raised, lost, World, commit, rescue}
use saga_orchestrator_patter.Tasks.Billing.Row.{attempt}
use saga_orchestrator_patter.Tasks.Billing.{BillingEnv, process_billing, write_phase}
use saga_orchestrator_patter.Tasks.Billing.Laws.{is_settled, written, written-id}

-- A job of one of the two steps behind billing.
abbrev pub is_forward : Job → Bool
is_forward job = elim job.function [
  | Function.process_inventory ↦ true
  | Function.process_logistic ↦ true
  | _ ↦ false
]

module _ {T : OrderTable} (env : BillingEnv T) (id : ℕ) (w : World T) where
  -- The rows that the run itself has not changed: those it began with, or those that the other
  -- transactions left while it called the service.
  pub found_rows : Option Order → T.Rows
  found_rows none = w.rows
  found_rows (some o) = if env.read then env.meanwhile w.rows else w.rows

  pub left_rows : T.Rows
  unfolding found_rows
  left_rows = found_rows (T.find id w.rows)

  pub left_rows_alone : ((rows : T.Rows) → env.meanwhile rows ≡ rows) → left_rows ≡ w.rows
  unfolding left_rows
  left_rows_alone alone = ground (arith, alone w.rows)

  -- Whatever fails, billing of an order that exists in both sessions leaves the table either as
  -- the other transactions left it, or with the one row of its order written.
  pub process_billing_atomic :
      (o o' : Order)
      → T.find id w.rows ≡ some o
      → T.find id (env.meanwhile w.rows) ≡ some o'
      → ((process_billing env id w).1.rows ≡ left_rows)
        ⊎ ((process_billing env id w).1.rows
            ≡ T.write (written env.now env.response o o') left_rows)
  unfolding process_billing write_phase commit rescue left_rows written
  process_billing_atomic o o' found here = ground arith

  process_billing_missing :
      (T.find id w.rows ≡ none) ⊎ (T.find id (env.meanwhile w.rows) ≡ none)
      → (process_billing env id w).1.rows ≡ left_rows
  unfolding process_billing write_phase commit rescue left_rows
  process_billing_missing missing = ground arith

  -- Whatever fails, billing changes no row but that of its order.
  pub process_billing-other_rows :
      (i : ℕ) → i ≢ id → T.find i (process_billing env id w).1.rows ≡ T.find i left_rows
  process_billing-other_rows i other = elim (Option-cases (T.find id w.rows)) [
    | inl missing ↦ ap (T.find i) (process_billing_missing (inl missing))
    | inr (o, found) ↦ elim (Option-cases (T.find id (env.meanwhile w.rows))) [
      | inl gone ↦ ap (T.find i) (process_billing_missing (inr gone))
      | inr (o', here) ↦ elim (process_billing_atomic o o' found here) [
        | inl kept ↦ ap (T.find i) kept
        | inr wrote ↦
            ap (T.find i) wrote
            ∙ find-write_other T (written env.now env.response o o') i left_rows
                (λ e. other (e ∙ written-id env.now env.response o o' ∙ T.find_id id _ o' here))
      ]
    ]
  ]

  -- If billing raises, and not because the connection was lost after a commit, the table is as the
  -- other transactions left it.
  pub process_billing_rolls_back :
      (process_billing env id w).0 ≡ raised
      → env.committed ≢ lost
      → (process_billing env id w).1.rows ≡ left_rows
  unfolding process_billing write_phase commit rescue left_rows
  process_billing_rolls_back h l = ground arith

  -- If billing raises and the broker takes the last call, then the job that it enqueued last is a
  -- compensation of its order.
  pub process_billing_rescued :
      (process_billing env id w).0 ≡ raised
      → env.rescue_sent ≡ true
      → head? (process_billing env id w).1.jobs ≡ some (compensation_job id)
  unfolding process_billing rescue
  process_billing_rescued h l = ground arith

  -- Billing of a prepaid order whose charge did not come back with 200 enqueues no inventory and
  -- no logistics job, whatever else fails.
  process_billing_forwards_nothing :
      (o : Order)
      → T.find id w.rows ≡ some o
      → is_settled o.payment_type env.response ≡ false
      → keep is_forward (process_billing env id w).1.jobs ≡ keep is_forward w.jobs
  unfolding process_billing write_phase commit rescue attempt
  process_billing_forwards_nothing o f h = ground arith
