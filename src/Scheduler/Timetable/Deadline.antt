-- ===== src/Scheduler/Timetable/Deadline.antt =====
-- When the scheduler enqueues the compensation of an order that got stuck.
use saga_orchestrator_patter.Base.{
  ℕ, zero, suc, ◌+◌, ◌*◌, ◌/◌, ◌≤◌, ◌≡◌, ◌∙◌, true, false, ◌⊎◌, inl, inr, some, arith, ◌==◌, any,
  Bool-cases,
}
use saga_orchestrator_patter.Models.Order.{Order}
use saga_orchestrator_patter.Table.{OrderTable}
use saga_orchestrator_patter.World.Effects.{World}
use saga_orchestrator_patter.Scheduler.Poll.{is_for}
use saga_orchestrator_patter.Scheduler.{is_stuck}
use saga_orchestrator_patter.Scheduler.Timetable.{
  Arq, Plan, IsPunctual, is_poll, due_in_order, due_in_order-poll, run_cron,
}
use saga_orchestrator_patter.Scheduler.Timetable.Steps.{
  enqueued, Pending, run_each-enqueued, run_each-Pending, run_each-or, run_each-poll,
}

-- The first start of a poll that finds an order stuck which was last updated at `at`.
abbrev first_poll : ℕ → ℕ
first_poll at = (at + 60) / 30 * 30 + 30

module _ {T : OrderTable} (arq : Arq) (p : Plan T) (i d : ℕ) (on_time : IsPunctual i d p)
    (o : Order) (s : ℕ) (w : World T) (pending : Pending i o w) where
  run_cron-Pending : (n : ℕ) → s + n + d ≤ o.updated_at + 61 → Pending i o (run_cron arq p s n w)
  unfolding run_cron
  run_cron-Pending zero early = pending
  run_cron-Pending (suc n) early =
      let young : s + n + d ≤ o.updated_at + 60 = omega arith in
      let alive : s + n + d ≤ o.updated_at + 3600 = omega arith in
      run_each-Pending p i d on_time o (s + n) alive (due_in_order arq p (s + n))
        (run_cron arq p s n w) young (run_cron-Pending n (omega arith))

  module _ (waits : is_stuck (o.updated_at + 61) o ≡ true) (begun : s ≤ o.updated_at + 60)
      (prompt : d ≤ 3510) where
    run_cron-or :
        (n : ℕ)
        → (enqueued i (run_cron arq p s n w) ≡ true)
          ⊎ (Pending i o (run_cron arq p s n w) × (s + n ≤ first_poll o.updated_at))
    unfolding run_cron
    run_cron-or zero = inr (pending, omega arith)
    run_cron-or (suc n) =
        let t = s + n in
        let fs = due_in_order arq p t in
        let w' = run_cron arq p s n w in
        elim (run_cron-or n) [
          | inl done ↦ inl (run_each-enqueued p i d on_time o t fs w' done)
          | inr (h, by) ↦
              let alive : t + d ≤ o.updated_at + 3600 = omega arith in
              elim (Bool-cases (t == first_poll o.updated_at)) [
                | inl now ↦
                    let late : o.updated_at + 61 ≤ t = ground arith in
                    let due : any is_poll fs ≡ true = due_in_order-poll arq p t ∙ ground arith in
                    inl (run_each-poll p i d on_time o t alive fs w' waits late due h)
                | inr before ↦ elim (run_each-or p i d on_time o t alive fs w' h) [
                  | inl done ↦ inl done
                  | inr kept ↦ inr (kept, ground arith)
                ]
              ]
        ]

module _ {T : OrderTable} (arq : Arq) (p : Plan T) (i d : ℕ) (o : Order) (s : ℕ) (w : World T) where
  run_cron-keeps :
      IsPunctual i d p → enqueued i w ≡ true → (n : ℕ) → enqueued i (run_cron arq p s n w) ≡ true
  unfolding run_cron
  run_cron-keeps on_time before zero = before
  run_cron-keeps on_time before (suc n) =
      run_each-enqueued p i d on_time o (s + n) (due_in_order arq p (s + n)) (run_cron arq p s n w)
        (run_cron-keeps on_time before n)

  -- A run that includes the 90th second after the last update leaves a compensation in the queue.
  pub run_cron-enqueued :
      IsPunctual i d p
      → T.find i w.rows ≡ some o
      → is_stuck (o.updated_at + 61) o ≡ true
      → s ≤ o.updated_at + 60
      → d ≤ 3510
      → (late : ℕ) → o.updated_at + 91 ≤ s + late
      → any (is_for i) (run_cron arq p s late w).jobs ≡ true
  run_cron-enqueued on_time found waits begun prompt late after = elim (Bool-cases (enqueued i w)) [
    | inl before ↦ run_cron-keeps on_time before late
    | inr free ↦
        let pending : Pending i o w = record { found = found; no_job = free } in
        elim (run_cron-or arq p i d on_time o s w pending waits begun prompt late) [
          | inl done ↦ done
          | inr (kept, by) ↦ absurd (omega arith)
        ]
  ]

  -- Let an order be in a state that counts as stuck 61 seconds after its last update, with no
  -- compensation of its own in the queue, and let the scheduler run by its cron table, second by
  -- second, from some second up to a minute after that update on, where its jobs start at most d
  -- seconds late, d up to 3510, their clocks do not run back, the calls to the database and the
  -- broker work and no one else changes the row. Then no compensation of the order is in the queue
  -- after a run whose last second is at most 60 - d seconds after the update, and one does after
  -- every run that includes the 90th second after it.
  pub run_cron_deadline :
      IsPunctual i d p
      → T.find i w.rows ≡ some o
      → any (is_for i) w.jobs ≡ false
      → is_stuck (o.updated_at + 61) o ≡ true
      → s ≤ o.updated_at + 60
      → d ≤ 3510
      → (early late : ℕ) → s + early + d ≤ o.updated_at + 61
      → o.updated_at + 91 ≤ s + late
      → (any (is_for i) (run_cron arq p s early w).jobs ≡ false)
        × (any (is_for i) (run_cron arq p s late w).jobs ≡ true)
  run_cron_deadline on_time found free waits begun prompt early late before after =
      let pending : Pending i o w = record { found = found; no_job = free } in
      let young = run_cron-Pending arq p i d on_time o s w pending early before in
      let done = run_cron-enqueued on_time found waits begun prompt late after in
      (young.no_job, done)
