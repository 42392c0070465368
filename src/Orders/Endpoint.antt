-- ===== src/Orders/Endpoint.antt =====
-- src/api/endpoints/order.py: the status and the body of the answer to POST /orders/, and the
-- admin's PATCH /admin/orders/{order_id}/force-cancel.
use mathlib.Core.Option
use saga_orchestrator_patter.Base.{
  ℕ, ◌≡◌, refl, Bool, true, false, inl, inr, Option, none, some, List, [], ◌∷◌, ◌++◌, arith,
  Option-cases, ◌==◌, if◌then◌else◌,
}
use saga_orchestrator_patter.Models.Enums.{
  OrderGlobalStatus, is_manual, manual_intervention_required, same_status,
}
use saga_orchestrator_patter.Models.Order.{Order}
use saga_orchestrator_patter.Table.{OrderTable}
use saga_orchestrator_patter.World.Jobs.{Job, Function, JobId, saga_scheduler}
use saga_orchestrator_patter.World.Effects.{Commit, rolled_back, lost, World, enqueue}
use saga_orchestrator_patter.Scheduler.Updates.{update, find-update}
use saga_orchestrator_patter.Orders.Request.{OrderCreate}
use saga_orchestrator_patter.Orders.{
  CreateEnv, CreateResult, created, goods_not_found, raised, create_bulk,
}

-- The body is one order or an array of them.
pub data Payload : Type 0 where
  single : OrderCreate → Payload
  many : List OrderCreate → Payload

-- What the endpoint returns, with the status code of the response.
pub data Answer : Type 0 where
  one : ℕ → Order → Answer
  list : ℕ → List Order → Answer
  error : ℕ → Answer

abbrev pub data_list : Payload → List OrderCreate
data_list (single d) = d ∷ []
data_list (many ds) = ds

-- `existing_orders[0]`, else `saved_orders[0]`, which is an IndexError if both lists are empty.
answer_single : List Order → List Order → Answer
answer_single saved (e ∷ existing) = one 200 e
answer_single (o ∷ saved) [] = one 201 o
answer_single [] [] = error 500

answer_many : List Order → List Order → Answer
answer_many [] existing = list 200 existing
answer_many (o ∷ saved) existing = list 201 ((o ∷ saved) ++ existing)

unfoldable pub answer : Payload → CreateResult → Answer
unfolding answer_single answer_many
answer (single d) (created saved existing) = answer_single saved existing
answer (many ds) (created saved existing) = answer_many saved existing
answer p goods_not_found = error 404
answer p raised = error 500

unfoldable pub create :
    {T : OrderTable} → CreateEnv → Option ℕ → Payload → World T → Answer × World T
create env buyer p w = let (r, w') = create_bulk env buyer (data_list p) w in (answer p r, w')

-- The replies to one force-cancel.
pub record ForceEnv (T : OrderTable) : Type 0 where
  pub meanwhile : T.Rows → T.Rows
  pub committed : Commit
  pub now : ℕ
  pub sent : Bool

-- The function takes no argument: the job is about no order, and 0 is the id of none.
abbrev pub gauge_job : ℕ → Job
gauge_job at = record {
  function = Function.sync_manual_intervention_gauge;
  order_id = 0;
  retry_count = 0;
  job_id = JobId.gauge_at at;
  queue = saga_scheduler;
  defer_by = 0;
}

abbrev pub force_cancelled : ℕ → Order → Order
force_cancelled now o = record o { global_status = OrderGlobalStatus.cancelled; updated_at = now }

module _ {T : OrderTable} where
  -- `update_global_status`, which updates the row by its key, and the job behind its commit; the
  -- result is the status code
  cancel_now : ForceEnv T → ℕ → World T → ℕ × World T
  cancel_now env id w =
      let w' = record w { rows = update T (force_cancelled env.now) id (env.meanwhile w.rows) } in
      elim env.committed [
        | Commit.committed ↦
            ((if env.sent then 200 else 500), enqueue env.sent (gauge_job env.now) w')
        | rolled_back ↦ (500, record w { rows = env.meanwhile w.rows })
        | lost ↦ (500, w')
      ]

  force_found : ForceEnv T → ℕ → Option Order → World T → ℕ × World T
  unfolding cancel_now
  force_found env id none w = (404, w)
  force_found env id (some o) w =
      if is_manual o.global_status then cancel_now env id w else (400, w)

  unfoldable pub force_cancel : ForceEnv T → ℕ → World T → ℕ × World T
  unfolding force_found
  force_cancel env id w = force_found env id (T.find id w.rows) w

-- There is a row, and it waits for an admin.
abbrev pub waits_for_admin : Option Order → Bool
waits_for_admin none = false
waits_for_admin (some o) = same_status o.global_status manual_intervention_required

-- The status code that the row calls for, when nothing fails.
pub code_for : Option Order → ℕ
code_for none = 404
code_for (some o) = if waits_for_admin (some o) then 200 else 400

module _ {T : OrderTable} (env : ForceEnv T) (id : ℕ) (w : World T) where
  -- A force-cancel that answers 200, whatever else happened, had read the order in
  -- MANUAL_INTERVENTION_REQUIRED.
  force_cancel_guarded :
      (force_cancel env id w).0 ≡ 200
      → (o : Order) × (T.find id w.rows ≡ some o) × (o.global_status ≡ manual_intervention_required)
  unfolding force_cancel
  force_cancel_guarded ok = elim (Option-cases (T.find id w.rows)) [
    | inl missing ↦ absurd (ground arith)
    | inr (o, found) ↦ (o, found, ground arith)
  ]

  -- If the commit and the broker work, a force-cancel answers 404 for a missing order and 400 for
  -- one that is not in MANUAL_INTERVENTION_REQUIRED, both without any change of the table or the
  -- queue, and else 200; it then moves the row of that order to CANCELLED with a new time of the
  -- last update, leaves its other columns and all other rows, and enqueues one update of the gauge
  -- for the scheduler.
  pub force_cancel_settles :
      env.committed ≡ Commit.committed
      → env.sent ≡ true
      → (i : ℕ)
      → ((force_cancel env id w).0 ≡ code_for (T.find id w.rows))
        × ((force_cancel env id w).1.jobs ≡ (
            if waits_for_admin (T.find id w.rows)
            then record {
              function = Function.sync_manual_intervention_gauge;
              order_id = 0;
              retry_count = 0;
              job_id = JobId.gauge_at env.now;
              queue = saga_scheduler;
              defer_by = 0;
            }
              ∷ w.jobs
            else w.jobs))
        × (T.find i (force_cancel env id w).1.rows ≡ (
            if waits_for_admin (T.find id w.rows)
            then (if id == i
                then Option.map {A = Order}
                    (λ o. record o {
                      global_status = OrderGlobalStatus.cancelled;
                      updated_at = env.now;
                    })
                    (T.find i (env.meanwhile w.rows))
                else T.find i (env.meanwhile w.rows))
            else T.find i w.rows))
  unfolding force_cancel code_for same_status
  force_cancel_settles c s i =
      ground
        (arith, find-update T (force_cancelled env.now) (λ _. refl) id i (env.meanwhile w.rows))
