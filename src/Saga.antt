-- ===== src/Saga.antt =====
-- One order's saga as the workers interleave it: each step is a transaction of a task of
-- src/workers, or the end of a task that has written nothing. Every job of the three forward tasks
-- runs at most once; compensations may run at any time, several at once. The scheduler and the
-- admin read the row without a lock, so each of them is two steps.
pub mod Invariant
pub mod Safety
pub mod Stranded
use saga_orchestrator_patter.Base.{ℕ, ◌≡◌, Bool, true, false, List, [], ◌∷◌, ◌&&◌, if◌then◌else◌}
use saga_orchestrator_patter.Models.Enums.{
  OrderGlobalStatus, is_compensating, is_manual, is_processing, pending, processing,
}
use saga_orchestrator_patter.Models.Order.{Order, flush}
use saga_orchestrator_patter.World.Jobs.{HttpResult, step_status}
use saga_orchestrator_patter.Tasks.Billing.Row.{attempt, proceeds, billing_row}
use saga_orchestrator_patter.Tasks.Inventory.Row.{inventory_row}
use saga_orchestrator_patter.Tasks.Logistics.Row.{logistics_row}
use saga_orchestrator_patter.Tasks.Compensation.Row.{
  Undo, Replies, has_pending, undo_of, begin_row, end_row, close_row,
}
use saga_orchestrator_patter.Scheduler.Updates.{touched, marked}

-- A job that is not enqueued yet, one that has not reached its write phase, one that has
-- committed, and one that ended without a commit.
pub data Phase : Type 0 where
  waiting queued done gone : Phase

pub record Saga : Type 0 where
  pub row : Order
  pub billing : Phase
  pub inventory : Phase
  pub logistics : Phase
  -- the compensations between their two sessions, with what each undoes
  pub undoing : List Undo
  -- the check for dead orders has selected the order; an admin has seen it as MANUAL
  pub flagged : Bool
  pub asked : Bool
  -- an admin has cancelled it
  pub forced : Bool

-- Takes one compensation out of those that run.
pub data Take (u : Undo) : List Undo → List Undo → Type 0 where
  here : {us : List Undo} → Take u (u ∷ us) us
  there : {v : Undo} {us vs : List Undo} → Take u us vs → Take u (v ∷ us) (v ∷ vs)

pub data Step (s t : Saga) : Type 0 where
  -- billing commits
  bill :
      (r : HttpResult) (now : ℕ)
      → s.billing ≡ queued
      → (let a = attempt s.row.payment_type r in
          t ≡ record s {
            row = flush now s.row (billing_row a s.row);
            billing = done;
            inventory = if proceeds a then queued else s.inventory;
            logistics = if proceeds a then queued else s.logistics;
          })
      → Step s t
  -- billing is rolled back; the jobs that it had enqueued are in the queue
  bill_lost :
      (r : HttpResult) (inventory logistics : Bool)
      → s.billing ≡ queued
      → (let a = attempt s.row.payment_type r in
          t ≡ record s {
            billing = gone;
            inventory = if proceeds a && inventory then queued else s.inventory;
            logistics = if proceeds a && logistics then queued else s.logistics;
          })
      → Step s t
  reserve :
      (r : HttpResult) (now : ℕ)
      → s.inventory ≡ queued
      → t
        ≡ record s { row = flush now s.row (inventory_row (step_status r) s.row); inventory = done }
      → Step s t
  reserve_lost : s.inventory ≡ queued → t ≡ record s { inventory = gone } → Step s t
  arrange :
      (r : HttpResult) (now : ℕ)
      → s.logistics ≡ queued
      → t
        ≡ record s { row = flush now s.row (logistics_row (step_status r) s.row); logistics = done }
      → Step s t
  arrange_lost : s.logistics ≡ queued → t ≡ record s { logistics = gone } → Step s t
  -- the first session of a compensation, and the last one
  begin :
      (now : ℕ)
      → has_pending s.row ≡ false
      → t ≡ record s {
        row = flush now s.row (begin_row now s.row);
        undoing = undo_of s.row ∷ s.undoing;
      }
      → Step s t
  end :
      (u : Undo) (rest : List Undo) (r : Replies) (retry now : ℕ)
      → Take u s.undoing rest
      → t ≡ record s { row = flush now s.row (close_row retry (end_row u r s.row)); undoing = rest }
      → Step s t
  end_lost :
      (u : Undo) (rest : List Undo)
      → Take u s.undoing rest
      → t ≡ record s { undoing = rest }
      → Step s t
  -- the poll, and the check for dead orders
  touch : (stamp : ℕ) → t ≡ record s { row = touched stamp s.row } → Step s t
  flag : is_compensating s.row.global_status ≡ true → t ≡ record s { flagged = true } → Step s t
  mark :
      (now : ℕ)
      → s.flagged ≡ true
      → t ≡ record s { row = marked now s.row; flagged = false }
      → Step s t
  -- the endpoint `force_cancel`
  ask : is_manual s.row.global_status ≡ true → t ≡ record s { asked = true } → Step s t
  force :
      (now : ℕ)
      → s.asked ≡ true
      → t ≡ record s {
        row = record s.row { global_status = OrderGlobalStatus.cancelled; updated_at = now };
        asked = false;
        forced = true;
      }
      → Step s t

-- A new order, with its billing job in the queue.
pub record IsNew (s : Saga) : Type 0 where
  pub billing_pending : s.row.billing_status ≡ pending
  pub inventory_pending : s.row.inventory_status ≡ pending
  pub logistics_pending : s.row.logistics_status ≡ pending
  pub processing : s.row.global_status ≡ processing
  pub queued : s.billing ≡ queued
  pub no_inventory : s.inventory ≡ waiting
  pub no_logistics : s.logistics ≡ waiting
  pub calm : s.undoing ≡ []
  pub not_flagged : s.flagged ≡ false
  pub not_asked : s.asked ≡ false
  pub not_forced : s.forced ≡ false

pub data Reach : Saga → Type 0 where
  new : {s : Saga} → IsNew s → Reach s
  later : {s t : Saga} → Reach s → Step s t → Reach t
