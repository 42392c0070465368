-- ===== src/Saga/Invariant.antt =====
-- What every reachable saga satisfies, and that each step keeps it.
use saga_orchestrator_patter.Base.{
  ℕ, ◌≡◌, ◌≢◌, refl, Bool, true, false, List, [], ◌∷◌, ◌⊎◌, ◌∙◌, arith,
}
use saga_orchestrator_patter.Models.Enums.{
  SagaStepStatus, pending, success, completed, processing, OrderGlobalStatus,
  manual_intervention_required, is_pending, is_success, is_paid,
}
use saga_orchestrator_patter.Models.Order.{
  Order, statuses, flush, flush-billing, flush-inventory, flush-logistics, flush-global,
}
use saga_orchestrator_patter.World.Jobs.{HttpResult, step_status}
use saga_orchestrator_patter.Tasks.Billing.Row.{attempt, billing_row}
use saga_orchestrator_patter.Tasks.Inventory.Row.{inventory_row}
use saga_orchestrator_patter.Tasks.Logistics.Row.{logistics_row}
use saga_orchestrator_patter.Tasks.Compensation.Row.{
  Undo, Replies, undone, has_pending, begin_row, end_row, close_row, is_left,
}
use saga_orchestrator_patter.Saga.{
  waiting, queued, done, Saga, Take, Step, bill, bill_lost, reserve, reserve_lost, arrange,
  arrange_lost, begin, end, end_lost, touch, flag, mark, ask, force, IsNew, Reach, new, later,
}

abbrev pub is_busy : List Undo → Bool
is_busy [] = false
is_busy (u ∷ us) = true

Take-busy : {u : Undo} {us vs : List Undo} → Take u us vs → is_busy us ≡ true
Take-busy Take.here = refl
Take-busy (Take.there k) = refl

-- A step of an order in PROCESSING has not failed.
abbrev pub is_clean : SagaStepStatus → Bool
is_clean pending = true
is_clean success = true
is_clean _ = false

pub record Inv (s : Saga) : Type 0 where
  pub billing_open : s.billing ≢ done → s.row.billing_status ≡ pending
  pub billing_done : s.billing ≡ done → is_pending s.row.billing_status ≡ false
  pub first_inventory : s.billing ≡ queued → s.row.inventory_status ≡ pending
  pub first_logistics : s.billing ≡ queued → s.row.logistics_status ≡ pending
  pub inventory_open : s.inventory ≡ queued → s.row.inventory_status ≡ pending
  pub inventory_done : s.inventory ≡ done → is_pending s.row.inventory_status ≡ false
  pub logistics_open : s.logistics ≡ queued → s.row.logistics_status ≡ pending
  pub logistics_done : s.logistics ≡ done → is_pending s.row.logistics_status ≡ false
  pub inventory_later : s.billing ≡ queued → s.inventory ≡ waiting
  pub logistics_later : s.billing ≡ queued → s.logistics ≡ waiting
  pub busy : is_busy s.undoing ≡ true → has_pending s.row ≡ false
  pub processing_open : s.row.global_status ≡ processing → has_pending s.row ≡ true
  pub processing_clean :
      s.row.global_status ≡ processing
      → (is_clean s.row.inventory_status ≡ true)
        × (is_clean s.row.logistics_status ≡ true)
        × ((is_pending s.row.billing_status ≡ true) ⊎ (is_paid s.row.billing_status ≡ true))
  pub completed_whole :
      s.row.global_status ≡ completed
      → (s.row.inventory_status ≡ success)
        × (s.row.logistics_status ≡ success)
        × (is_paid s.row.billing_status ≡ true)
  pub completed_calm : s.row.global_status ≡ completed → is_busy s.undoing ≡ false
  pub cancelled_over :
      s.row.global_status ≡ OrderGlobalStatus.cancelled
      → s.forced ≡ false
      → (has_pending s.row ≡ false) × (is_left s.row ≡ false)

IsNew-Inv : {s : Saga} → IsNew s → Inv s
IsNew-Inv n = ground arith

-- The row is rewritten to one with the columns of `new`.
module _ (now : ℕ) (o new : Order) where
  pub flush-statuses : statuses (flush now o new) ≡ statuses new
  flush-statuses = ground (
    arith,
    flush-billing now o new,
    flush-inventory now o new,
    flush-logistics now o new,
    flush-global now o new,
  )

pub is_pending-undone :
    (wanted : Bool) (r : HttpResult) (s : SagaStepStatus)
    → is_pending s ≡ false
    → is_pending (undone wanted r s) ≡ false
unfolding undone
is_pending-undone wanted r s h = ground arith

pub is_success-undone :
    (wanted : Bool) (r : HttpResult) (s : SagaStepStatus)
    → is_success s ≡ false
    → is_success (undone wanted r s) ≡ false
unfolding undone
is_success-undone wanted r s h = ground arith

has_pending-close : (retry : ℕ) (o : Order) → has_pending (close_row retry o) ≡ has_pending o
unfolding close_row
has_pending-close retry o = ground arith

is_left-close : (retry : ℕ) (o : Order) → is_left (close_row retry o) ≡ is_left o
unfolding close_row
is_left-close retry o = ground arith

-- The end of a compensation leaves no step pending that was not, and none succeeded that was not.
module _ (retry : ℕ) (u : Undo) (r : Replies) (o : Order) where
  has_pending-end : has_pending o ≡ false → has_pending (end_row u r o) ≡ false
  unfolding end_row
  has_pending-end calm = ground (
    arith,
    is_pending-undone u.billing r.billing o.billing_status,
    is_pending-undone u.inventory r.inventory o.inventory_status,
    is_pending-undone u.logistics r.logistics o.logistics_status,
  )

  is_left-end : is_left o ≡ false → is_left (end_row u r o) ≡ false
  unfolding end_row
  is_left-end over = ground (
    arith,
    is_success-undone u.billing r.billing o.billing_status,
    is_success-undone u.inventory r.inventory o.inventory_status,
    is_success-undone u.logistics r.logistics o.logistics_status,
  )

  close-has_pending : has_pending o ≡ false → has_pending (close_row retry (end_row u r o)) ≡ false
  close-has_pending calm = has_pending-close retry (end_row u r o) ∙ has_pending-end calm

  close-is_left : is_left o ≡ false → is_left (close_row retry (end_row u r o)) ≡ false
  close-is_left over = is_left-close retry (end_row u r o) ∙ is_left-end over

  close-global :
      let c = close_row retry (end_row u r o) in
      (c.global_status ≡ o.global_status)
      ⊎ (c.global_status ≡ manual_intervention_required)
      ⊎ ((c.global_status ≡ OrderGlobalStatus.cancelled) × (is_left c ≡ false))
  unfolding end_row close_row
  close-global = ground arith

is_pending-step_status : (r : HttpResult) → is_pending (step_status r) ≡ false
is_pending-step_status r = ground arith

-- The steps that rewrite the row, each with a result of its own.
module _ (s t : Saga) (now : ℕ) (h : Inv s) where
  reserve-Inv :
      (status : SagaStepStatus)
      → is_pending status ≡ false
      → s.inventory ≡ queued
      → t ≡ record s { row = flush now s.row (inventory_row status s.row); inventory = done }
      → Inv t
  unfolding inventory_row
  reserve-Inv status p q e = ground (arith, flush-statuses now s.row (inventory_row status s.row))

  arrange-Inv :
      (status : SagaStepStatus)
      → is_pending status ≡ false
      → s.logistics ≡ queued
      → t ≡ record s { row = flush now s.row (logistics_row status s.row); logistics = done }
      → Inv t
  unfolding logistics_row
  arrange-Inv status p q e = ground (arith, flush-statuses now s.row (logistics_row status s.row))

  end-Inv :
      (u : Undo) (rest : List Undo) (r : Replies) (retry : ℕ)
      → is_busy s.undoing ≡ true
      → t ≡ record s { row = flush now s.row (close_row retry (end_row u r s.row)); undoing = rest }
      → Inv t
  end-Inv u rest r retry k e = ground (
    arith,
    close-has_pending retry u r s.row,
    close-is_left retry u r s.row,
    close-global retry u r s.row,
    flush-statuses now s.row (close_row retry (end_row u r s.row)),
  )

-- Every step keeps the invariant.
pub Step-Inv : {s t : Saga} → Step s t → Inv s → Inv t
unfolding billing_row attempt
Step-Inv {s} (bill r now q e) h =
    ground (arith, flush-statuses now s.row (billing_row (attempt s.row.payment_type r) s.row))
Step-Inv (bill_lost r i l q e) h = ground arith
Step-Inv {s} {t} (reserve r now q e) h =
    reserve-Inv s t now h (step_status r) (is_pending-step_status r) q e
Step-Inv (reserve_lost q e) h = ground arith
Step-Inv {s} {t} (arrange r now q e) h =
    arrange-Inv s t now h (step_status r) (is_pending-step_status r) q e
Step-Inv (arrange_lost q e) h = ground arith
Step-Inv {s} (begin now w e) h = ground (arith, flush-statuses now s.row (begin_row now s.row))
Step-Inv {s} {t} (end u rest r retry now k e) h = end-Inv s t now h u rest r retry (Take-busy k) e
Step-Inv (end_lost u rest k e) h = ground (arith, Take-busy k)
Step-Inv (touch stamp e) h = ground arith
Step-Inv (flag c e) h = ground arith
Step-Inv (mark now f e) h = ground arith
Step-Inv (ask m e) h = ground arith
Step-Inv (force now a e) h = ground arith

pub Reach-Inv : {s : Saga} → Reach s → Inv s
Reach-Inv (new n) = IsNew-Inv n
Reach-Inv (later r st) = Step-Inv st (Reach-Inv r)
