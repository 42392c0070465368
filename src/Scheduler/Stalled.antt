-- ===== src/Scheduler/Stalled.antt =====
-- The recovery of an order that is stuck in PROCESSING: the poll dispatches a compensation, and the
-- compensation runs, again and again.
use mathlib.Core.Option
use saga_orchestrator_patter.Base.{
  ℕ, zero, suc, ◌≡◌, refl, ap, ◌∙◌, true, ◌⊎◌, inl, inr, some, List, [], ◌∷◌, arith, if◌then◌else◌,
}
use saga_orchestrator_patter.Models.Order.{Order, statuses}
use saga_orchestrator_patter.Table.{OrderTable}
use saga_orchestrator_patter.World.Effects.{World}
use saga_orchestrator_patter.Tasks.Compensation.Row.{has_pending}
use saga_orchestrator_patter.Tasks.Compensation.{CompensationEnv, compensation}
use saga_orchestrator_patter.Tasks.Compensation.Laws.{compensation_defers}
use saga_orchestrator_patter.Scheduler.Updates.{touched, find-touch_all}
use saga_orchestrator_patter.Scheduler.Poll.{dispatch-rows}
use saga_orchestrator_patter.Scheduler.{
  PollEnv, dispatch, poll_and_dispatch_orders, is_stuck, sync_manual_intervention_gauge,
}

module _ {T : OrderTable} (env : PollEnv T) (w : World T) (i : ℕ) where
  pub poll-row :
      (T.find i (poll_and_dispatch_orders env w).1.rows ≡ T.find i (env.meanwhile w.rows))
      ⊎ (T.find i (poll_and_dispatch_orders env w).1.rows
          ≡ Option.map (touched (env.stamp i)) (T.find i (env.meanwhile w.rows)))
  unfolding poll_and_dispatch_orders sync_manual_intervention_gauge
  poll-row =
      let stuck = if env.fetched then T.select (is_stuck env.now) w.rows else [] in
      ground (
        arith,
        dispatch-rows env stuck w,
        find-touch_all T env.sent env.stamp stuck i (env.meanwhile w.rows),
      )

  dispatch-posts : (os : List Order) (w : World T) → (dispatch env os w).posts ≡ w.posts
  unfolding dispatch
  dispatch-posts [] w = refl
  dispatch-posts (o ∷ rest) w = dispatch-posts rest _ ∙ ground arith

  pub poll-posts : (poll_and_dispatch_orders env w).1.posts ≡ w.posts
  unfolding poll_and_dispatch_orders sync_manual_intervention_gauge
  poll-posts =
      let stuck = if env.fetched then T.select (is_stuck env.now) w.rows else [] in
      ground (arith, dispatch-posts stuck w)

-- The order `i` is as `o`, but for the time of its last update, and no service was called.
pub record Stalled {T : OrderTable} (i : ℕ) (o : Order) (w w' : World T) : Type 0 where
  pub row : Order
  pub found : T.find i w'.rows ≡ some row
  pub columns : statuses row ≡ statuses o
  pub posts : w'.posts ≡ w.posts

module _ {T : OrderTable} (i : ℕ) (o : Order) (w w' : World T) where
  poll-Stalled :
      (env : PollEnv T)
      → T.find i (env.meanwhile w'.rows) ≡ T.find i w'.rows
      → Stalled i o w w'
      → Stalled i o w (poll_and_dispatch_orders env w').1
  poll-Stalled env quiet s = elim (poll-row env w' i) [
    | inl kept ↦ record {
      row = s.row;
      found = kept ∙ quiet ∙ s.found;
      columns = s.columns;
      posts = poll-posts env w' i ∙ s.posts;
    }
    | inr new ↦ record {
      row = touched (env.stamp i) s.row;
      found = new ∙ ap (Option.map (touched (env.stamp i))) (quiet ∙ s.found);
      columns = s.columns;
      posts = poll-posts env w' i ∙ s.posts;
    }
  ]

  compensation-Stalled :
      (env : CompensationEnv T) (retry : ℕ)
      → has_pending o ≡ true
      → Stalled i o w w'
      → Stalled i o w (compensation env i retry w').1
  compensation-Stalled env retry waits s =
      let waits' : has_pending s.row ≡ true = ground (arith, s.columns) in
      let (rows, _, posts, _) = compensation_defers env i retry w' s.row s.found waits' in
      record {
        row = s.row;
        found = ap (T.find i) rows ∙ s.found;
        columns = s.columns;
        posts = posts ∙ s.posts;
      }

module _ {T : OrderTable} (poll : ℕ → PollEnv T) (comp : ℕ → CompensationEnv T) (i : ℕ) where
  -- `n` polls, each followed by the compensation that it dispatches.
  unfoldable pub recover : ℕ → World T → World T
  recover zero w = w
  recover (suc n) w =
      (compensation (comp n) i 0 (poll_and_dispatch_orders (poll n) (recover n w)).1).1

  -- An order with a PENDING step that no one else changes keeps its statuses through any number of
  -- polls, each followed by the compensation that it dispatches, and no service is called,
  -- whatever the database and the broker answer.
  pub recover_stalls :
      (n : ℕ) (w : World T) (o : Order)
      → T.find i w.rows ≡ some o
      → has_pending o ≡ true
      → ((m : ℕ) (rows : T.Rows) → T.find i ((poll m).meanwhile rows) ≡ T.find i rows)
      → Stalled i o w (recover n w)
  unfolding recover
  recover_stalls zero w o found waits quiet = record {
    row = o;
    found = found;
    columns = refl;
    posts = refl;
  }
  recover_stalls (suc n) w o found waits quiet =
      let s = recover_stalls n w o found waits quiet in
      let polled = (poll_and_dispatch_orders (poll n) (recover n w)).1 in
      compensation-Stalled i o w polled (comp n) 0 waits
        (poll-Stalled i o w (recover n w) (poll n) (quiet n (recover n w).rows) s)
