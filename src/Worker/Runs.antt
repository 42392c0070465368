-- ===== src/Worker/Runs.antt =====
-- Whatever the workers, the scheduler and the admins do, one thing after the other, the order in the
-- table is that of a reachable saga.
use saga_orchestrator_patter.Base.{
  ℕ, ◌≡◌, refl, ap, ◌∙◌, Bool, true, false, inl, inr, List, ◌∷◌, [], arith, ◌||◌, any, ◌==◌,
  Option-cases,
}
use mathlib.Core.Path.{subst}
use saga_orchestrator_patter.Models.Enums.{OrderGlobalStatus}
use saga_orchestrator_patter.Table.{OrderTable}
use saga_orchestrator_patter.World.Jobs.{
  Function, process_billing, process_inventory, process_logistic,
}
use saga_orchestrator_patter.World.Effects.{World}
use saga_orchestrator_patter.Scheduler.Updates.{touched, marked}
use saga_orchestrator_patter.Scheduler.Stalled.{poll-row}
use saga_orchestrator_patter.Saga.{Saga, touch, flag, mark, ask, force, Reach, later}
use saga_orchestrator_patter.Worker.Forward.{count, count-take}
use saga_orchestrator_patter.Worker.Cron.{
  count-poll, check-jobs, check-row, count-cancel, cancel-row,
}
use saga_orchestrator_patter.Worker.Refines.{Shows, Tracks-row}
use saga_orchestrator_patter.Worker.{
  take_job, Event, work, drop, poll, check, cancel, handle, handle_all, IsAlone, AllAlone,
}
use saga_orchestrator_patter.Worker.Called.{Follows, Taken, call-Follows}

-- The events that cancel the order by force.
abbrev pub is_cancel : {T : OrderTable} → ℕ → Event T → Bool
is_cancel id (cancel env i) = i == id
is_cancel id _ = false

or_assoc : (a b c : Bool) → ((a || b) || c) ≡ (a || (b || c))
or_assoc a b c = ground arith

module _ {T : OrderTable} (id : ℕ) where
  -- The saga in hand, one more event keeps it in hand.
  handle-Follows :
      (e : Event T) (w : World T) (b : Bool)
      → IsAlone e
      → Follows b id w
      → Follows (b || is_cancel id e) id (handle e w)
  unfolding handle
  handle-Follows (work n env) w b alone (s, r, may, h) = elim (Option-cases (take_job n w.jobs)) [
    | inl empty ↦ rw empty (s, r, ground arith, h)
    | inr ((job, rest), taken) ↦
        let left = record w { jobs = rest } in
        let before : Taken id job.function job.order_id left s = ground (
          arith,
          count-take process_billing id n w.jobs job rest taken,
          count-take process_inventory id n w.jobs job rest taken,
          count-take process_logistic id n w.jobs job rest taken,
        ) in
        rw taken (
          call-Follows id env job.function job.order_id job.retry_count left s (b || false) r
            (ground arith) alone.0 alone.1 before)
  ]
  handle-Follows (drop n) w b alone (s, r, may, h) = elim (Option-cases (take_job n w.jobs)) [
    | inl empty ↦ rw empty (s, r, ground arith, h)
    | inr ((job, rest), taken) ↦
        let shows : Shows id (record w { jobs = rest }) s = ground (
          arith,
          count-take process_billing id n w.jobs job rest taken,
          count-take process_inventory id n w.jobs job rest taken,
          count-take process_logistic id n w.jobs job rest taken,
        ) in
        rw taken (s, r, ground arith, shows)
  ]
  handle-Follows (poll env) w b alone (s, r, may, h) =
      let w' = handle (poll env) w in
      let same = λ (f : Function). count-poll env f id w in
      elim (poll-row env w id) [
        | inl kept ↦ (
          s,
          r,
          ground arith,
          Tracks-row id w w' s.row same (kept ∙ ap (T.find id) (alone w.rows) ∙ h.found) h,
        )
        | inr new ↦ (
          record s { row = touched (env.stamp id) s.row },
          later r (touch (env.stamp id) refl),
          ground arith,
          Tracks-row id w w' (touched (env.stamp id) s.row) same (ground (arith, alone w.rows)) h,
        )
      ]
  handle-Follows (check env) w b alone (s, r, may, h) =
      let w' = handle (check env) w in
      let same = λ (f : Function). ap (count f id) (check-jobs env w) in
      elim (check-row env alone w id s.row h.found) [
        | inl kept ↦ (s, r, ground arith, Tracks-row id w w' s.row same kept h)
        | inr (dead, new) ↦
            let s1 : Saga = record s { flagged = true } in
            let r1 : Reach s1 = later r (flag dead refl) in
            (
              record s { row = marked env.flushed_at s.row; flagged = false },
              later r1 (mark env.flushed_at refl refl),
              ground arith,
              Tracks-row id w w' (marked env.flushed_at s.row) same new h,
            )
      ]
  handle-Follows (cancel env i) w b alone (s, r, may, h) =
      let w' = handle (cancel env i) w in
      let same = λ (f : Function). count-cancel env i w f id in
      elim (cancel-row env i w alone id s.row h.found) [
        | inl kept ↦ (s, r, ground arith, Tracks-row id w w' s.row same kept h)
        | inr (own, manual, new) ↦
            let s1 : Saga = record s { asked = true } in
            let r1 : Reach s1 = later r (ask manual refl) in
            (
              record s {
                row = record s.row {
                  global_status = OrderGlobalStatus.cancelled;
                  updated_at = env.now;
                };
                asked = false;
                forced = true;
              },
              later r1 (force env.now refl refl),
              ground arith,
              Tracks-row id w w' _ same new h,
            )
      ]

  -- The workers, the scheduler and the admin refine the saga of one order: if the table and the
  -- queue show a reachable saga (its row, and for each forward task at most the one job that the
  -- saga has queued), then after any list of events, none overlapping another, they show a
  -- reachable saga again, cancelled by force only if that was so before or one of the events is a
  -- force-cancel of the order.
  pub handle_all-Follows :
      (es : List (Event T)) (w : World T) (b : Bool)
      → AllAlone es
      → Follows b id w
      → Follows (b || any (is_cancel id) es) id (handle_all es w)
  unfolding handle_all
  handle_all-Follows [] w b alone (s, r, may, h) = (s, r, ground arith, h)
  handle_all-Follows (e ∷ es) w b alone f =
      subst (λ c. Follows c id (handle_all (e ∷ es) w))
        (or_assoc b (is_cancel id e) (any (is_cancel id) es))
        (handle_all-Follows es (handle e w) (b || is_cancel id e) alone.1
          (handle-Follows e w b alone.0 f))
