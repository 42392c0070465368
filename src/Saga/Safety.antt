-- ===== src/Saga/Safety.antt =====
-- What the final states of a reachable saga mean, under every interleaving.
use saga_orchestrator_patter.Base.{◌≡◌, ◌≢◌, refl, false, true, [], ◌∷◌, arith}
use saga_orchestrator_patter.Models.Enums.{
  OrderGlobalStatus, completed, processing, success, compensated, is_paid, is_success,
}
use saga_orchestrator_patter.Models.Order.{Order, flush}
use saga_orchestrator_patter.World.Jobs.{response}
use saga_orchestrator_patter.Tasks.Compensation.Row.{
  Replies, undone, has_pending, undo_of, begin_row, end_row, close_row,
}
use saga_orchestrator_patter.Saga.{Saga, done, Reach, Step, Take, begin, end}
use saga_orchestrator_patter.Saga.Invariant.{is_clean, Reach-Inv, flush-statuses}

module _ {s : Saga} (r : Reach s) where
  -- In every saga reachable from a new order, under any interleaving of the tasks, the scheduler
  -- and the admin, a row in COMPLETED has inventory and logistics in SUCCESS, billing in SUCCESS
  -- or SKIPPED, and no compensation is between its two sessions.
  pub completed_means_done :
      s.row.global_status ≡ completed
      → (s.row.inventory_status ≡ success)
        × (s.row.logistics_status ≡ success)
        × (is_paid s.row.billing_status ≡ true)
        × (s.undoing ≡ [])
  completed_means_done c = ground (arith, Reach-Inv r)

  -- In every reachable saga whose row is CANCELLED, and which no admin has cancelled by force, no
  -- step is in SUCCESS and none is PENDING: all that had succeeded has been undone.
  pub cancelled_means_undone :
      s.row.global_status ≡ OrderGlobalStatus.cancelled
      → s.forced ≡ false
      → (s.row.billing_status ≢ success)
        × (s.row.inventory_status ≢ success)
        × (s.row.logistics_status ≢ success)
        × (has_pending s.row ≡ false)
  cancelled_means_undone c f = ground (arith, Reach-Inv r)

  -- In every reachable saga whose row is in PROCESSING some step is PENDING, inventory and
  -- logistics are each PENDING or SUCCESS, and no compensation is between its two sessions.
  pub processing_means_open :
      s.row.global_status ≡ processing
      → (has_pending s.row ≡ true)
        × (is_clean s.row.inventory_status ≡ true)
        × (is_clean s.row.logistics_status ≡ true)
        × (s.undoing ≡ [])
  processing_means_open p = ground (arith, Reach-Inv r)

  -- In every reachable saga in which billing, inventory and logistics have all committed, the row
  -- is no longer in PROCESSING.
  pub no_lost_completion :
      s.billing ≡ done → s.inventory ≡ done → s.logistics ≡ done → s.row.global_status ≢ processing
  no_lost_completion b i l p = ground (arith, Reach-Inv r)

-- All three rollback services answer 200.
abbrev accepted : Replies
accepted = record { billing = response 200; inventory = response 200; logistics = response 200 }

-- The rows that the two sessions of a compensation write.
module _ (o : Order) where
  begun : Order
  begun = flush 0 o (begin_row 0 o)

  ended : Order
  ended = flush 0 begun (close_row 0 (end_row (undo_of o) accepted begun))

  -- Of a row with no step pending, an accepted compensation undoes all that had succeeded.
  ended_statuses :
      o.inventory_status ≡ success
      → o.logistics_status ≡ success
      → is_paid o.billing_status ≡ true
      → (ended.global_status ≡ OrderGlobalStatus.cancelled)
        × (ended.inventory_status ≡ compensated)
        × (ended.logistics_status ≡ compensated)
        × (ended.billing_status ≢ success)
  unfolding begun ended end_row close_row undone
  ended_statuses i l b = ground (
    arith,
    flush-statuses 0 o (begin_row 0 o),
    flush-statuses 0 begun (close_row 0 (end_row (undo_of o) accepted begun)),
  )

module _ {s : Saga} (r : Reach s) where
  -- From every reachable saga whose row is COMPLETED, the two steps of one compensation lead to a
  -- CANCELLED order: the first session begins it, to undo inventory and logistics, and billing if
  -- that is in SUCCESS, and the second ends it, with inventory and logistics COMPENSATED and
  -- billing no longer in SUCCESS.
  pub completed_can_be_undone :
      s.row.global_status ≡ completed
      → (m : Saga) × (t : Saga) × Step s m
        × (m.undoing
            ≡ record {
              billing = is_success s.row.billing_status;
              inventory = true;
              logistics = true;
            }
              ∷ s.undoing)
        × Step m t
        × (t.undoing ≡ s.undoing)
        × (t.row.global_status ≡ OrderGlobalStatus.cancelled)
        × (t.row.inventory_status ≡ compensated)
        × (t.row.logistics_status ≡ compensated)
        × (t.row.billing_status ≢ success)
  unfolding begun ended
  completed_can_be_undone c =
      let (i, l, b) = (Reach-Inv r).completed_whole c in
      let (g, i', l', b') = ended_statuses s.row i l b in
      let u = undo_of s.row in
      let s1 : Saga = record s { row = begun s.row; undoing = u ∷ s.undoing } in
      (
        s1,
        record s1 { row = ended s.row; undoing = s.undoing },
        begin 0 (ground arith) refl,
        ground (arith, i, l),
        end u s.undoing accepted 0 0 Take.here refl,
        refl,
        g,
        i',
        l',
        b',
      )
