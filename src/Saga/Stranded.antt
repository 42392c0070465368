-- ===== src/Saga/Stranded.antt =====
-- A postpaid order whose inventory and logistics both fail, with the compensation that the first
-- failure enqueues between the two.
use saga_orchestrator_patter.Base.{ℕ, ◌≡◌, ap, ◌∙◌, false, some, ◌∷◌, arith}
use saga_orchestrator_patter.Models.Enums.{pending, failed, skipped, processing, compensating}
use saga_orchestrator_patter.Models.Order.{Order, statuses}
use saga_orchestrator_patter.Table.{OrderTable, find-write_self}
use saga_orchestrator_patter.World.Jobs.{compensation_job, step_status}
use saga_orchestrator_patter.World.Effects.{World}
use saga_orchestrator_patter.Tasks.Env.{StepEnv, IsHealthy}
use saga_orchestrator_patter.Tasks.Inventory.{process_inventory}
use saga_orchestrator_patter.Tasks.Inventory.Laws
use saga_orchestrator_patter.Tasks.Inventory.Row.{inventory_row}
use saga_orchestrator_patter.Tasks.Logistics.{process_logistic}
use saga_orchestrator_patter.Tasks.Logistics.Laws as L
use saga_orchestrator_patter.Tasks.Logistics.Row.{logistics_row}
use saga_orchestrator_patter.Tasks.Parallel.{statuses-inventory, statuses-logistics}
use saga_orchestrator_patter.Tasks.Compensation.{CompensationEnv, compensation}
use saga_orchestrator_patter.Tasks.Compensation.Laws.{compensation_defers}
use saga_orchestrator_patter.Scheduler.{is_stuck}

module _ {T : OrderTable} (inv log : StepEnv) (comp : CompensationEnv T) (id : ℕ)
    (w : World T) where
  -- The three jobs, in this order.
  unfoldable pub both_fail : World T
  both_fail = (process_logistic log id (compensation comp id 0 (process_inventory inv id w).1).1).1

-- The order waits in COMPENSATING with nothing to undo, the only job left for it has run, and no
-- poll selects it, however late.
pub record Stranded {T : OrderTable} (id : ℕ) (w w' : World T) : Type 0 where
  pub row : Order
  pub found : T.find id w'.rows ≡ some row
  pub columns : statuses row ≡ (skipped, failed, failed, compensating)
  pub jobs : w'.jobs ≡ compensation_job id ∷ w.jobs
  pub unseen : (now : ℕ) → is_stuck now row ≡ false

not-stuck :
    (o : Order) (now : ℕ)
    → statuses o ≡ (skipped, failed, failed, compensating)
    → is_stuck now o ≡ false
unfolding is_stuck
not-stuck o now h = ground arith

module _ {T : OrderTable} (inv log : StepEnv) (comp : CompensationEnv T) (id : ℕ) (w : World T)
    (o : Order) where
  -- If inventory and logistics of a fresh postpaid order both fail, with the compensation enqueued
  -- by the first running between the two and no call to the database or the broker failing in the
  -- two tasks, then the order is left in COMPENSATING with nothing to undo, the only job made for
  -- it has run, and no poll selects it at any later time.
  pub both_fail_strands :
      IsHealthy inv
      → IsHealthy log
      → T.find id w.rows ≡ some o
      → statuses o ≡ (skipped, pending, pending, processing)
      → step_status inv.response ≡ failed
      → step_status log.response ≡ failed
      → Stranded id w (both_fail inv log comp id w)
  unfolding both_fail inventory_row logistics_row Laws.follow_up L.follow_up
  both_fail_strands hi hl found fresh fi fl =
      let w1 = (process_inventory inv id w).1 in
      let o1 = Laws.written inv.now (step_status inv.response) o in
      let (_, rows1, jobs1) = Laws.process_inventory_run inv id w o hi found in
      let f1 : T.find id w1.rows ≡ some o1 =
        rw rows1 (find-write_self T o o1 id w.rows found (Laws.written-id inv.now _ o)) in
      let s1 = statuses-inventory inv.now (step_status inv.response) o in
      let w2 = (compensation comp id 0 w1).1 in
      let (rows2, jobs2, _, _) = compensation_defers comp id 0 w1 o1 f1 (ground arith) in
      let f2 : T.find id w2.rows ≡ some o1 = ap (T.find id) rows2 ∙ f1 in
      let o3 = L.written log.now (step_status log.response) o1 in
      let (_, rows3, jobs3) = L.process_logistic_run log id w2 o1 hl f2 in
      let s3 = statuses-logistics log.now (step_status log.response) o1 in
      let columns : statuses o3 ≡ (skipped, failed, failed, compensating) = ground arith in
      record {
        row = o3;
        found = rw rows3 (find-write_self T o1 o3 id w2.rows f2 (L.written-id log.now _ o1));
        columns = columns;
        jobs = ground arith;
        unseen = λ now. not-stuck o3 now columns;
      }
