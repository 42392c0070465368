-- ===== src/Tasks/Counted.antt =====
-- The metrics of the inventory and the logistics task of one order, in either order.
use mathlib.Core.Quot
use saga_orchestrator_patter.Base.{
  ℕ, ◌≡◌, sym, ap, ◌∙◌, Bool, false, some, ◌&&◌, arith, if◌then◌else◌,
}
use saga_orchestrator_patter.Models.Enums.{
  SagaStepStatus, completed, is_success, is_paid, is_compensating,
}
use saga_orchestrator_patter.Models.Order.{Order}
use saga_orchestrator_patter.Table.{OrderTable, find-write_self}
use saga_orchestrator_patter.World.Jobs.{step_status}
use saga_orchestrator_patter.World.Metrics as Metrics
use saga_orchestrator_patter.World.Metrics.{
  Metrics, record_execution, record_step_status, observe_step_duration,
  record_final_status_transition,
}
use saga_orchestrator_patter.World.Scrape.{scrape, SameValues}
use saga_orchestrator_patter.World.Effects.{World, commit, rescue}
use saga_orchestrator_patter.Tasks.Env
use saga_orchestrator_patter.Tasks.Env.{StepEnv}
use saga_orchestrator_patter.Tasks.Inventory.Row.{inventory_row}
use saga_orchestrator_patter.Tasks.Inventory as Inventory
use saga_orchestrator_patter.Tasks.Inventory.{process_inventory}
use saga_orchestrator_patter.Tasks.Inventory.Laws
use saga_orchestrator_patter.Tasks.Logistics.Row.{logistics_row}
use saga_orchestrator_patter.Tasks.Logistics as Logistics
use saga_orchestrator_patter.Tasks.Logistics.{process_logistic}
use saga_orchestrator_patter.Tasks.Logistics.Laws as L
use saga_orchestrator_patter.Tasks.Parallel.{statuses-inventory, statuses-logistics}

-- The metrics of one run that works: the step, the completion if it comes last, and the duration.
module _ (step : Metrics.Step) (status : SagaStepStatus) (others_done : Bool) (o : Order) where
  unfoldable counted : Metrics → Metrics
  counted m =
      let saved = record_step_status step status m in
      observe_step_duration step (
        if is_compensating o.global_status
        then saved
        else if is_success status && others_done
        then record_final_status_transition o.global_status completed saved
        else saved)

abbrev is_inventory_last : Order → Bool
is_inventory_last o = is_success o.logistics_status && is_paid o.billing_status

abbrev is_logistics_last : Order → Bool
is_logistics_last o = is_success o.inventory_status && is_paid o.billing_status

module _ {T : OrderTable} (env : StepEnv) (id : ℕ) (w : World T) (o : Order) where
  process_inventory-metrics :
      Env.IsHealthy env
      → T.find id w.rows ≡ some o
      → (process_inventory env id w).1.metrics
        ≡ counted Metrics.inventory (step_status env.response) (is_inventory_last o) o w.metrics
  unfolding process_inventory Inventory.write_phase commit rescue counted
  process_inventory-metrics h f = ground arith

  process_logistic-metrics :
      Env.IsHealthy env
      → T.find id w.rows ≡ some o
      → (process_logistic env id w).1.metrics
        ≡ counted Metrics.logistics (step_status env.response) (is_logistics_last o) o w.metrics
  unfolding process_logistic Logistics.write_phase commit rescue counted
  process_logistic-metrics h f = ground arith

-- The two steps are still open.
abbrev pub IsOpen : Order → Type 0
IsOpen o = (is_success o.inventory_status ≡ false) × (is_success o.logistics_status ≡ false)

module _ (first second : ℕ) (inventory logistics : SagaStepStatus) (o : Order) (m : Metrics)
    (is_open : IsOpen o) where
  inventory_first : Metrics
  inventory_first =
      let o1 = Laws.written first inventory o in
      counted Metrics.logistics logistics (is_logistics_last o1) o1
        (counted Metrics.inventory inventory (is_inventory_last o) o m)

  logistics_first : Metrics
  logistics_first =
      let o1 = L.written second logistics o in
      counted Metrics.inventory inventory (is_inventory_last o1) o1
        (counted Metrics.logistics logistics (is_logistics_last o) o m)

  counted-SameValues : SameValues inventory_first logistics_first
  unfolding inventory_first logistics_first counted inventory_row logistics_row record_execution
      record_step_status observe_step_duration record_final_status_transition
  counted-SameValues =
      let si = statuses-inventory first inventory o in
      let sl = statuses-logistics second logistics o in
      (
        λ p. ground (arith, si, sl),
        λ p. ground (arith, si, sl),
        λ p. ground (arith, si, sl),
        ground (arith, si, sl),
      )

module _ {T : OrderTable} (inv log : StepEnv) (id : ℕ) (w : World T) (o : Order)
    (hi : Env.IsHealthy inv) (hl : Env.IsHealthy log) (found : T.find id w.rows ≡ some o)
    (is_open : IsOpen o) where
  process_logistic-process_inventory :
      (process_logistic log id (process_inventory inv id w).1).1.metrics
      ≡ inventory_first inv.now log.now
          (step_status inv.response)
          (step_status log.response)
          o
          w.metrics
          is_open
  unfolding inventory_first
  process_logistic-process_inventory =
      let si = step_status inv.response in
      let sl = step_status log.response in
      let w1 = (process_inventory inv id w).1 in
      let o1 = Laws.written inv.now si o in
      let (_, rows1, _) = Laws.process_inventory_run inv id w o hi found in
      let found1 : T.find id w1.rows ≡ some o1 =
        rw rows1 (find-write_self T o o1 id w.rows found (Laws.written-id inv.now si o)) in
      process_logistic-metrics log id w1 o1 hl found1
      ∙ ap (counted Metrics.logistics sl (is_logistics_last o1) o1)
          (process_inventory-metrics inv id w o hi found)

  process_inventory-process_logistic :
      (process_inventory inv id (process_logistic log id w).1).1.metrics
      ≡ logistics_first inv.now log.now
          (step_status inv.response)
          (step_status log.response)
          o
          w.metrics
          is_open
  unfolding logistics_first
  process_inventory-process_logistic =
      let si = step_status inv.response in
      let sl = step_status log.response in
      let w1 = (process_logistic log id w).1 in
      let o1 = L.written log.now sl o in
      let (_, rows1, _) = L.process_logistic_run log id w o hl found in
      let found1 : T.find id w1.rows ≡ some o1 =
        rw rows1 (find-write_self T o o1 id w.rows found (L.written-id log.now sl o)) in
      process_inventory-metrics inv id w1 o1 hi found1
      ∙ ap (counted Metrics.inventory si (is_inventory_last o1) o1)
          (process_logistic-metrics log id w o hl found)

  -- If no call to the database or the broker fails, the order exists and neither inventory nor
  -- logistics is in SUCCESS yet, then Prometheus reads the same of the metrics whichever of the
  -- two tasks runs first: in the quotient by the values of all counters, the numbers of
  -- observations and the gauge, the two are equal.
  pub scrape_order_independent :
      scrape (process_logistic log id (process_inventory inv id w).1).1.metrics
      ≡ scrape (process_inventory inv id (process_logistic log id w).1).1.metrics
  scrape_order_independent =
      let si = step_status inv.response in
      let sl = step_status log.response in
      ap scrape process_logistic-process_inventory
      ∙ Quot.sound (counted-SameValues inv.now log.now si sl o w.metrics is_open)
      ∙ ap scrape (sym process_inventory-process_logistic)
