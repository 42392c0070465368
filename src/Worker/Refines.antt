-- ===== src/Worker/Refines.antt =====
-- Every task of the workers, run on the table and the queue, is a step of the saga of its order.
use saga_orchestrator_patter.Base.{
  ℕ, ◌+◌, ◌≤◌, ◌≡◌, refl, ap, ◌∙◌, inl, inr, some, arith, ◌&&◌, if◌then◌else◌,
}
use saga_orchestrator_patter.Models.Order.{Order}
use saga_orchestrator_patter.Table.{OrderTable, find-write_self}
use saga_orchestrator_patter.World.Jobs.{
  Function, process_billing, process_inventory, process_logistic, step_status,
}
use saga_orchestrator_patter.World.Effects.{World, commit, rescue}
use saga_orchestrator_patter.Tasks.Env.{StepEnv}
use saga_orchestrator_patter.Tasks.Billing as Billing
use saga_orchestrator_patter.Tasks.Billing.{BillingEnv}
use saga_orchestrator_patter.Tasks.Billing.Row.{attempt, proceeds}
use saga_orchestrator_patter.Tasks.Billing.Laws as Billing_laws
use saga_orchestrator_patter.Tasks.Billing.Safety.{
  left_rows, left_rows_alone, process_billing_atomic,
}
use saga_orchestrator_patter.Tasks.Inventory as Inventory
use saga_orchestrator_patter.Tasks.Inventory.Laws as Inventory_laws
use saga_orchestrator_patter.Tasks.Logistics as Logistics
use saga_orchestrator_patter.Tasks.Logistics.Laws as Logistics_laws
use saga_orchestrator_patter.Saga.{
  Phase, waiting, queued, done, gone, Saga, Step, bill, bill_lost, reserve, reserve_lost, arrange,
  arrange_lost,
}
use saga_orchestrator_patter.Worker.Forward.{count}
use saga_orchestrator_patter.Worker.Effects.{count-inventory, count-logistics}

-- The jobs that a phase allows in the queue.
abbrev pub jobs_of : Phase → ℕ
jobs_of queued = 1
jobs_of _ = 0

-- The order `id` has the row `o`, and at most so many jobs of each forward task.
pub record Tracks {T : OrderTable} (id : ℕ) (w : World T) (o : Order) (b i l : ℕ) : Type 0 where
  pub found : T.find id w.rows ≡ some o
  pub billing : count process_billing id w.jobs ≤ b
  pub inventory : count process_inventory id w.jobs ≤ i
  pub logistics : count process_logistic id w.jobs ≤ l

-- The world shows the saga: the same row, and jobs only for the phases that are queued.
abbrev pub Shows : {T : OrderTable} → ℕ → World T → Saga → Type 0
Shows id w s = Tracks id w s.row (jobs_of s.billing) (jobs_of s.inventory) (jobs_of s.logistics)

-- A change of the row that leaves the forward jobs.
pub Tracks-row :
    {T : OrderTable} (id : ℕ) (w w' : World T) {o : Order} (o' : Order) {b i l : ℕ}
    → ((f : Function) → count f id w'.jobs ≡ count f id w.jobs)
    → T.find id w'.rows ≡ some o'
    → Tracks id w o b i l
    → Tracks id w' o' b i l
Tracks-row id w w' o' same found h =
    ground (arith, same process_billing, same process_inventory, same process_logistic)

module _ {T : OrderTable} (env : StepEnv) (id : ℕ) (w : World T) (s : Saga) where
  pub process_inventory-Step :
      s.inventory ≡ queued
      → Tracks id w s.row (jobs_of s.billing) 0 (jobs_of s.logistics)
      → (t : Saga) × Step s t
        × (t.forced ≡ s.forced)
        × Shows id (Inventory.process_inventory env id w).1 t
  unfolding Inventory_laws.written
  process_inventory-Step q h =
      let status = step_status env.response in
      let new = Inventory_laws.written env.now status s.row in
      let w' = (Inventory.process_inventory env id w).1 in
      let same = λ (f : Function). count-inventory env id w f id in
      elim (Inventory_laws.process_inventory_atomic env id w s.row h.found) [
        | inl kept ↦ (
          record s { inventory = gone },
          reserve_lost q refl,
          refl,
          Tracks-row id w w' s.row same (ap (T.find id) kept ∙ h.found) h,
        )
        | inr wrote ↦ (
          record s { row = new; inventory = done },
          reserve env.response env.now q refl,
          refl,
          Tracks-row id w w' new same
              (ap (T.find id) wrote
                ∙ find-write_self T s.row new id w.rows h.found
                    (Inventory_laws.written-id env.now status s.row))
              h,
        )
      ]

  pub process_logistic-Step :
      s.logistics ≡ queued
      → Tracks id w s.row (jobs_of s.billing) (jobs_of s.inventory) 0
      → (t : Saga) × Step s t
        × (t.forced ≡ s.forced)
        × Shows id (Logistics.process_logistic env id w).1 t
  unfolding Logistics_laws.written
  process_logistic-Step q h =
      let status = step_status env.response in
      let new = Logistics_laws.written env.now status s.row in
      let w' = (Logistics.process_logistic env id w).1 in
      let same = λ (f : Function). count-logistics env id w f id in
      elim (Logistics_laws.process_logistic_atomic env id w s.row h.found) [
        | inl kept ↦ (
          record s { logistics = gone },
          arrange_lost q refl,
          refl,
          Tracks-row id w w' s.row same (ap (T.find id) kept ∙ h.found) h,
        )
        | inr wrote ↦ (
          record s { row = new; logistics = done },
          arrange env.response env.now q refl,
          refl,
          Tracks-row id w w' new same
              (ap (T.find id) wrote
                ∙ find-write_self T s.row new id w.rows h.found
                    (Logistics_laws.written-id env.now status s.row))
              h,
        )
      ]

module _ {T : OrderTable} (env : BillingEnv T) (id : ℕ) (w : World T) (s : Saga)
    (alone : (rows : T.Rows) → env.meanwhile rows ≡ rows) where
  -- The two forward jobs of the order, if their calls have reached the broker.
  count-billing :
      T.find id w.rows ≡ some s.row
      → let sent = env.read && env.reread && proceeds (attempt s.row.payment_type env.response) in
        let w' = (Billing.process_billing env id w).1 in
        (count process_billing id w'.jobs ≡ count process_billing id w.jobs)
        × (count process_inventory id w'.jobs
            ≡ (if sent && env.inventory_sent then 1 else 0) + count process_inventory id w.jobs)
        × (count process_logistic id w'.jobs
            ≡ (if sent && env.logistic_sent then 1 else 0) + count process_logistic id w.jobs)
  unfolding Billing.process_billing Billing.write_phase commit rescue attempt
  count-billing found = ground (arith, alone w.rows)

  pub process_billing-Step :
      s.billing ≡ queued
      → s.inventory ≡ waiting
      → s.logistics ≡ waiting
      → Tracks id w s.row 0 (jobs_of s.inventory) (jobs_of s.logistics)
      → (t : Saga) × Step s t
        × (t.forced ≡ s.forced)
        × Shows id (Billing.process_billing env id w).1 t
  unfolding Billing_laws.written
  process_billing-Step q qi ql h =
      let a = attempt s.row.payment_type env.response in
      let new = Billing_laws.written env.now env.response s.row s.row in
      let here : T.find id (env.meanwhile w.rows) ≡ some s.row =
        ap (T.find id) (alone w.rows) ∙ h.found in
      let here' : T.find id (left_rows env id w) ≡ some s.row =
        ap (T.find id) (left_rows_alone env id w alone) ∙ h.found in
      elim (process_billing_atomic env id w s.row s.row h.found here) [
        | inl kept ↦
            let i = env.read && env.reread && env.inventory_sent in
            let l = env.read && env.reread && env.logistic_sent in
            (
              record s {
                billing = gone;
                inventory = if proceeds a && i then queued else s.inventory;
                logistics = if proceeds a && l then queued else s.logistics;
              },
              bill_lost env.response i l q refl,
              refl,
              record {
                found = ap (T.find id) kept ∙ here';
                billing = ground (arith, count-billing h.found);
                inventory = ground (arith, count-billing h.found);
                logistics = ground (arith, count-billing h.found);
              },
            )
        | inr wrote ↦ (
          record s {
            row = new;
            billing = done;
            inventory = if proceeds a then queued else s.inventory;
            logistics = if proceeds a then queued else s.logistics;
          },
          bill env.response env.now q refl,
          refl,
          record {
            found =
                ap (T.find id) wrote
                ∙ find-write_self T s.row new id (left_rows env id w) here'
                    (Billing_laws.written-id env.now env.response s.row s.row);
            billing = ground (arith, count-billing h.found);
            inventory = ground (arith, count-billing h.found);
            logistics = ground (arith, count-billing h.found);
          },
        )
      ]
