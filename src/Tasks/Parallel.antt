-- ===== src/Tasks/Parallel.antt =====
-- The inventory and the logistics task of one order, which billing enqueues together and which the
-- workers run in either order: each locks the row for its write phase.
use saga_orchestrator_patter.Base.{ℕ, ◌≡◌, ap, ◌∙◌, some, List, ◌∷◌, ◌&&◌, arith, if◌then◌else◌}
use saga_orchestrator_patter.Models.Enums.{
  SagaStepStatus, OrderGlobalStatus, completed, compensating, is_success, is_paid, is_compensating,
}
use saga_orchestrator_patter.Models.Order.{
  Order, statuses, flush-billing, flush-inventory, flush-logistics, flush-global,
}
use saga_orchestrator_patter.Table.{OrderTable, find-write_self}
use saga_orchestrator_patter.World.Jobs.{Job, step_status, compensation_job}
use saga_orchestrator_patter.World.Effects.{World}
use saga_orchestrator_patter.Tasks.Env
use saga_orchestrator_patter.Tasks.Env.{StepEnv}
use saga_orchestrator_patter.Tasks.Inventory.Row.{inventory_row}
use saga_orchestrator_patter.Tasks.Inventory.{process_inventory}
use saga_orchestrator_patter.Tasks.Inventory.Laws
use saga_orchestrator_patter.Tasks.Logistics.Row.{logistics_row}
use saga_orchestrator_patter.Tasks.Logistics.{process_logistic}
use saga_orchestrator_patter.Tasks.Logistics.Laws as L

-- The statuses that the two tasks must leave together, whichever ran last.
abbrev pub joined :
    SagaStepStatus
    → SagaStepStatus
    → Order
    → SagaStepStatus × SagaStepStatus × SagaStepStatus × OrderGlobalStatus
joined inventory logistics o = (
  o.billing_status,
  inventory,
  logistics,
  (if is_compensating o.global_status
      then compensating
      else if is_success inventory && is_success logistics
      then (if is_paid o.billing_status then completed else o.global_status)
      else compensating),
)

-- At most one compensation is enqueued, and only if a step failed.
abbrev pub joined_jobs : SagaStepStatus → SagaStepStatus → Order → ℕ → List Job → List Job
joined_jobs inventory logistics o id jobs =
    if is_compensating o.global_status
    then jobs
    else if is_success inventory && is_success logistics
    then jobs
    else compensation_job id ∷ jobs

module _ (now : ℕ) (status : SagaStepStatus) (o : Order) where
  pub statuses-inventory : statuses (Laws.written now status o) ≡ statuses (inventory_row status o)
  unfolding Laws.written
  statuses-inventory =
      let new = inventory_row status o in
      ground (
        arith,
        flush-billing now o new,
        flush-inventory now o new,
        flush-logistics now o new,
        flush-global now o new,
      )

  pub statuses-logistics : statuses (L.written now status o) ≡ statuses (logistics_row status o)
  unfolding L.written
  statuses-logistics =
      let new = logistics_row status o in
      ground (
        arith,
        flush-billing now o new,
        flush-inventory now o new,
        flush-logistics now o new,
        flush-global now o new,
      )

module _ (first second : ℕ) (inventory logistics : SagaStepStatus) (o : Order) where
  joined-logistics_last :
      statuses (L.written second logistics (Laws.written first inventory o))
      ≡ joined inventory logistics o
  unfolding inventory_row logistics_row
  joined-logistics_last = ground (
    arith,
    statuses-inventory first inventory o,
    statuses-logistics second logistics (Laws.written first inventory o),
  )

  joined-inventory_last :
      statuses (Laws.written second inventory (L.written first logistics o))
      ≡ joined inventory logistics o
  unfolding inventory_row logistics_row
  joined-inventory_last = ground (
    arith,
    statuses-logistics first logistics o,
    statuses-inventory second inventory (L.written first logistics o),
  )

  jobs-logistics_last :
      (id : ℕ) (jobs : List Job)
      → L.follow_up logistics
          (Laws.written first inventory o)
          id
          (Laws.follow_up inventory o id jobs)
        ≡ joined_jobs inventory logistics o id jobs
  unfolding Laws.follow_up L.follow_up inventory_row
  jobs-logistics_last id jobs = ground (arith, statuses-inventory first inventory o)

  jobs-inventory_last :
      (id : ℕ) (jobs : List Job)
      → Laws.follow_up inventory (L.written first logistics o) id (L.follow_up logistics o id jobs)
        ≡ joined_jobs inventory logistics o id jobs
  unfolding Laws.follow_up L.follow_up logistics_row
  jobs-inventory_last id jobs = ground (arith, statuses-logistics first logistics o)

-- The row has the joined statuses, and the jobs are the joined ones.
pub record Joined {T : OrderTable} (inventory logistics : SagaStepStatus) (o : Order) (id : ℕ)
    (before after : World T) : Type 0 where
  pub row : Order
  pub found : T.find id after.rows ≡ some row
  pub columns : statuses row ≡ joined inventory logistics o
  pub jobs : after.jobs ≡ joined_jobs inventory logistics o id before.jobs

module _ {T : OrderTable} (inv log : StepEnv) (id : ℕ) (w : World T) (o : Order) where
  process_inventory-then-logistic :
      Env.IsHealthy inv
      → Env.IsHealthy log
      → T.find id w.rows ≡ some o
      → Joined
          (step_status inv.response)
          (step_status log.response)
          o
          id
          w
          (process_logistic log id (process_inventory inv id w).1).1
  process_inventory-then-logistic hi hl f =
      let si = step_status inv.response in
      let sl = step_status log.response in
      let w1 = (process_inventory inv id w).1 in
      let o1 = Laws.written inv.now si o in
      let (_, rows1, jobs1) = Laws.process_inventory_run inv id w o hi f in
      let f1 : T.find id w1.rows ≡ some o1 =
        rw rows1 (find-write_self T o o1 id w.rows f (Laws.written-id inv.now si o)) in
      let (_, rows2, jobs2) = L.process_logistic_run log id w1 o1 hl f1 in
      record {
        row = L.written log.now sl o1;
        found = rw rows2 (
            find-write_self T o1 (L.written log.now sl o1) id w1.rows f1
              (L.written-id log.now sl o1));
        columns = joined-logistics_last inv.now log.now si sl o;
        jobs =
            jobs2
            ∙ ap (L.follow_up sl o1 id) jobs1
            ∙ jobs-logistics_last inv.now log.now si sl o id w.jobs;
      }

  process_logistic-then-inventory :
      Env.IsHealthy inv
      → Env.IsHealthy log
      → T.find id w.rows ≡ some o
      → Joined
          (step_status inv.response)
          (step_status log.response)
          o
          id
          w
          (process_inventory inv id (process_logistic log id w).1).1
  process_logistic-then-inventory hi hl f =
      let si = step_status inv.response in
      let sl = step_status log.response in
      let w1 = (process_logistic log id w).1 in
      let o1 = L.written log.now sl o in
      let (_, rows1, jobs1) = L.process_logistic_run log id w o hl f in
      let f1 : T.find id w1.rows ≡ some o1 =
        rw rows1 (find-write_self T o o1 id w.rows f (L.written-id log.now sl o)) in
      let (_, rows2, jobs2) = Laws.process_inventory_run inv id w1 o1 hi f1 in
      record {
        row = Laws.written inv.now si o1;
        found = rw rows2 (
            find-write_self T o1 (Laws.written inv.now si o1) id w1.rows f1
              (Laws.written-id inv.now si o1));
        columns = joined-inventory_last log.now inv.now si sl o;
        jobs =
            jobs2
            ∙ ap (Laws.follow_up si o1 id) jobs1
            ∙ jobs-inventory_last log.now inv.now si sl o id w.jobs;
      }

  -- If no call to the database or the broker fails and the order exists, then running inventory
  -- and logistics in either order leaves the same statuses, those of `joined`, and the same jobs,
  -- at most one compensation.
  pub parallel_order_independent :
      Env.IsHealthy inv
      → Env.IsHealthy log
      → T.find id w.rows ≡ some o
      → Joined
          (step_status inv.response)
          (step_status log.response)
          o
          id
          w
          (process_logistic log id (process_inventory inv id w).1).1
        × Joined
            (step_status inv.response)
            (step_status log.response)
            o
            id
            w
            (process_inventory inv id (process_logistic log id w).1).1
  parallel_order_independent hi hl f =
      (process_inventory-then-logistic hi hl f, process_logistic-then-inventory hi hl f)
