-- ===== src/Worker/Called.antt =====
-- A job that a worker runs is a step of the saga of its order, and leaves the sagas of the others.
use saga_orchestrator_patter.Base.{
  ℕ, ◌+◌, ◌≤◌, ◌≡◌, ◌≢◌, refl, sym, ap, ◌∙◌, Bool, true, false, inl, inr, some, ◌∷◌, arith, ◌&&◌,
  ◌==◌, ==_iff, if◌then◌else◌, Bool-cases,
}
use mathlib.Core.Path.{subst}
use saga_orchestrator_patter.Table.{OrderTable}
use saga_orchestrator_patter.World.Jobs.{
  Function, process_billing, process_inventory, process_logistic, compensation,
  sync_manual_intervention_gauge,
}
use saga_orchestrator_patter.World.Effects.{World}
use saga_orchestrator_patter.Tasks.Compensation as Compensation
use saga_orchestrator_patter.Tasks.Compensation.{CompensationEnv}
use saga_orchestrator_patter.Tasks.Compensation.Row.{has_pending, undo_of}
use saga_orchestrator_patter.Tasks.Compensation.Rows.{
  compensation_row, compensation-other_rows, begun_row, ended_row,
}
use saga_orchestrator_patter.Tasks.Billing.Safety.{process_billing-other_rows, left_rows_alone}
use saga_orchestrator_patter.Tasks.Inventory.Laws.{process_inventory-other_rows}
use saga_orchestrator_patter.Tasks.Logistics.Laws.{process_logistic-other_rows}
use saga_orchestrator_patter.Scheduler.{sync_manual_intervention_gauge as sync_gauge}
use saga_orchestrator_patter.Saga.{queued, Saga, Take, begin, end, end_lost, Reach, later}
use saga_orchestrator_patter.Saga.Invariant.{Reach-Inv}
use saga_orchestrator_patter.Worker.Forward.{same_forward, count}
use saga_orchestrator_patter.Worker.Effects.{
  count-inventory, count-logistics, count-compensation, count-billing_other,
}
use saga_orchestrator_patter.Worker.Refines.{
  Shows, Tracks-row, jobs_of, process_billing-Step, process_inventory-Step, process_logistic-Step,
}
use saga_orchestrator_patter.Worker.{TaskEnv, call}

-- Whether an admin may have cancelled the order by force.
abbrev pub is_within : Bool → Bool → Bool
is_within forced allowed = if forced then allowed else true

-- A reachable saga that the world shows; it is forced only if that is allowed.
abbrev pub Follows : {T : OrderTable} → Bool → ℕ → World T → Type 0
Follows allowed id w = (s : Saga) × Reach s × (is_within s.forced allowed ≡ true) × Shows id w s

-- The job `f` of the order `i` has just been taken.
pub record Taken {T : OrderTable} (id : ℕ) (f : Function) (i : ℕ) (w : World T) (s : Saga)
    : Type 0 where
  pub found : T.find id w.rows ≡ some s.row
  pub billing :
      (if same_forward f process_billing && i == id then 1 else 0) + count process_billing id w.jobs
      ≤ jobs_of s.billing
  pub inventory :
      (if same_forward f process_inventory && i == id then 1 else 0)
        + count process_inventory id w.jobs
      ≤ jobs_of s.inventory
  pub logistics :
      (if same_forward f process_logistic && i == id then 1 else 0)
        + count process_logistic id w.jobs
      ≤ jobs_of s.logistics

module _ {T : OrderTable} (id : ℕ) (w : World T) (s : Saga) (r : Reach s) (b : Bool)
    (may : is_within s.forced b ≡ true) where
  compensation-Follows :
      (env : CompensationEnv T) (retry : ℕ)
      → ((rows : T.Rows) → env.meanwhile rows ≡ rows)
      → Shows id w s
      → Follows b id (Compensation.compensation env id retry w).1
  unfolding ended_row
  compensation-Follows env retry alone h =
      let same = λ (f : Function). count-compensation env id retry w f id in
      let w' = (Compensation.compensation env id retry w).1 in
      let u = undo_of s.row in
      let now = env.started_at in
      let s1 : Saga = record s { row = begun_row now s.row; undoing = u ∷ s.undoing } in
      let r1 : has_pending s.row ≡ false → Reach s1 = λ ready. later r (begin now ready refl) in
      elim (compensation_row env id retry alone w s.row h.found) [
        | inl kept ↦ (s, r, may, Tracks-row id w w' s.row same kept h)
        | inr (inl (ready, wrote)) ↦ (
          record s { row = begun_row now s.row },
          later (r1 ready) (end_lost u s.undoing Take.here refl),
          may,
          Tracks-row id w w' (begun_row now s.row) same wrote h,
        )
        | inr (inr (ready, wrote)) ↦ (
          record s { row = ended_row env retry u (begun_row now s.row) },
          later (r1 ready) (end u s.undoing env.replies retry env.finished_at Take.here refl),
          may,
          Tracks-row id w w' (ended_row env retry u (begun_row now s.row)) same wrote h,
        )
      ]

  own-Follows :
      (env : TaskEnv T) (f : Function) (retry : ℕ)
      → ((rows : T.Rows) → env.billing.meanwhile rows ≡ rows)
      → ((rows : T.Rows) → env.compensation.meanwhile rows ≡ rows)
      → Taken id f id w s
      → Follows b id (call env f id retry w).1
  unfolding sync_gauge
  own-Follows env process_billing retry quiet _ h =
      let inv = Reach-Inv r in
      let q : s.billing ≡ queued = ground arith in
      let (t, st, same, shows) =
        process_billing-Step env.billing id w s quiet q (inv.inventory_later q)
          (inv.logistics_later q) (ground arith) in
      (t, later r st, ground arith, shows)
  own-Follows env process_inventory retry _ _ h =
      let (t, st, same, shows) =
        process_inventory-Step env.inventory id w s (ground arith) (ground arith) in
      (t, later r st, ground arith, shows)
  own-Follows env process_logistic retry _ _ h =
      let (t, st, same, shows) =
        process_logistic-Step env.logistics id w s (ground arith) (ground arith) in
      (t, later r st, ground arith, shows)
  own-Follows env compensation retry _ quiet h =
      compensation-Follows env.compensation retry quiet (ground arith)
  own-Follows env sync_manual_intervention_gauge retry _ _ h = (s, r, may, ground arith)

  other-Follows :
      (env : TaskEnv T) (f : Function) (i retry : ℕ)
      → id ≢ i
      → ((rows : T.Rows) → env.billing.meanwhile rows ≡ rows)
      → ((rows : T.Rows) → env.compensation.meanwhile rows ≡ rows)
      → Shows id w s
      → Follows b id (call env f i retry w).1
  unfolding sync_gauge
  other-Follows env process_billing i retry other quiet _ h = (
    s,
    r,
    may,
    Tracks-row id w (call env process_billing i retry w).1 s.row
        (λ f. count-billing_other env.billing i w f id other)
        (process_billing-other_rows env.billing i w id other
          ∙ ap (T.find id) (left_rows_alone env.billing i w quiet)
          ∙ h.found)
        h,
  )
  other-Follows env process_inventory i retry other _ _ h = (
    s,
    r,
    may,
    Tracks-row id w (call env process_inventory i retry w).1 s.row
        (λ f. count-inventory env.inventory i w f id)
        (process_inventory-other_rows env.inventory i w id other ∙ h.found) h,
  )
  other-Follows env process_logistic i retry other _ _ h = (
    s,
    r,
    may,
    Tracks-row id w (call env process_logistic i retry w).1 s.row
        (λ f. count-logistics env.logistics i w f id)
        (process_logistic-other_rows env.logistics i w id other ∙ h.found) h,
  )
  other-Follows env compensation i retry other _ quiet h = (
    s,
    r,
    may,
    Tracks-row id w (call env compensation i retry w).1 s.row
        (λ f. count-compensation env.compensation i retry w f id)
        (compensation-other_rows env.compensation i retry quiet w id other ∙ h.found) h,
  )
  other-Follows env sync_manual_intervention_gauge i retry _ _ _ h = (s, r, may, ground arith)

module _ {T : OrderTable} (id : ℕ) where
  pub call-Follows :
      (env : TaskEnv T) (f : Function) (i retry : ℕ) (w : World T) (s : Saga) (b : Bool)
      → Reach s
      → is_within s.forced b ≡ true
      → ((rows : T.Rows) → env.billing.meanwhile rows ≡ rows)
      → ((rows : T.Rows) → env.compensation.meanwhile rows ≡ rows)
      → Taken id f i w s
      → Follows b id (call env f i retry w).1
  call-Follows env f i retry w s b r may quiet quiet' h = elim (Bool-cases (i == id)) [
    | inl same ↦
        let e : i ≡ id = (==_iff i id).0 same in
        let own : Taken id f id w s = subst (λ j. Taken id f j w s) e h in
        subst (λ j. Follows b id (call env f j retry w).1) (sym e)
          (own-Follows id w s r b may env f retry quiet quiet' own)
    | inr differ ↦
        other-Follows id w s r b may env f i retry (λ e. cc ((==_iff i id).1 (sym e))) quiet quiet'
          (ground arith)
  ]
