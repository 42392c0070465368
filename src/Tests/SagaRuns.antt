-- ===== src/Tests/SagaRuns.antt =====
-- Runs of one order's saga: one that completes, and one that is cancelled.
use saga_orchestrator_patter.Base.{◌≡◌, ◌≢◌, refl, true, false, [], ◌∷◌}
use saga_orchestrator_patter.Models.Enums.{
  OrderGlobalStatus, processing, success, compensated, is_paid, same_step, same_status,
}
use saga_orchestrator_patter.Models.Order.{flush}
use saga_orchestrator_patter.World.Jobs.{HttpResult, response, step_status}
use saga_orchestrator_patter.Tasks.Billing.Row.{attempt, billing_row}
use saga_orchestrator_patter.Tasks.Inventory.Row.{inventory_row}
use saga_orchestrator_patter.Tasks.Logistics.Row.{logistics_row}
use saga_orchestrator_patter.Tasks.Compensation.Row.{
  Replies, has_pending, undo_of, begin_row, end_row, close_row, undone,
}
use saga_orchestrator_patter.Saga.{
  waiting, queued, done, Saga, here, bill, reserve, arrange, begin, end, Reach, Step, new, later,
}
use saga_orchestrator_patter.Saga.Invariant.{is_clean}
use saga_orchestrator_patter.Saga.Safety.{
  completed_means_done, cancelled_means_undone, processing_means_open, no_lost_completion,
  completed_can_be_undone,
}
use saga_orchestrator_patter.Tests.Fixtures.{placed}

abbrev pub start : Saga
start = record {
  row = placed;
  billing = queued;
  inventory = waiting;
  logistics = waiting;
  undoing = [];
  flagged = false;
  asked = false;
  forced = false;
}

pub start-Reach : Reach start
start-Reach = new record {
  billing_pending = refl;
  inventory_pending = refl;
  logistics_pending = refl;
  processing = refl;
  queued = refl;
  no_inventory = refl;
  no_logistics = refl;
  calm = refl;
  not_flagged = refl;
  not_asked = refl;
  not_forced = refl;
}

-- The charge is accepted at time 110.
abbrev charged : Saga
charged = record start {
  row = flush 110 placed (billing_row (attempt placed.payment_type (response 200)) placed);
  billing = done;
  inventory = queued;
  logistics = queued;
}

charged-Reach : Reach charged
unfolding same_step same_status flush billing_row attempt
charged-Reach = later start-Reach (bill (response 200) 110 refl refl)

-- The parts are reserved at time 120, the delivery is arranged (or not) at time 130.
abbrev reserved : Saga
reserved = record charged {
  row = flush 120 charged.row (inventory_row (step_status (response 200)) charged.row);
  inventory = done;
}

reserved-Reach : Reach reserved
reserved-Reach = later charged-Reach (reserve (response 200) 120 refl refl)

abbrev arranged : HttpResult → Saga
arranged r = record reserved {
  row = flush 130 reserved.row (logistics_row (step_status r) reserved.row);
  logistics = done;
}

arranged-Reach : (r : HttpResult) → Reach (arranged r)
arranged-Reach r = later reserved-Reach (arrange r 130 refl refl)

completed_means_done_example :
    let s = arranged (response 200) in
    (s.row.inventory_status ≡ success)
    × (s.row.logistics_status ≡ success)
    × (is_paid s.row.billing_status ≡ true)
    × (s.undoing ≡ [])
unfolding same_step same_status flush billing_row attempt inventory_row logistics_row
completed_means_done_example = completed_means_done (arranged-Reach (response 200)) refl

no_lost_completion_example : (arranged (response 200)).row.global_status ≢ processing
no_lost_completion_example = no_lost_completion (arranged-Reach (response 200)) refl refl refl

processing_means_open_example :
    (has_pending reserved.row ≡ true)
    × (is_clean reserved.row.inventory_status ≡ true)
    × (is_clean reserved.row.logistics_status ≡ true)
    × (reserved.undoing ≡ [])
unfolding same_step same_status flush billing_row attempt inventory_row
processing_means_open_example = processing_means_open reserved-Reach refl

completed_can_be_undone_example :
    (m : Saga) × (t : Saga) × Step (arranged (response 200)) m
    × (m.undoing ≡ record { billing = true; inventory = true; logistics = true } ∷ [])
    × Step m t
    × (t.undoing ≡ [])
    × (t.row.global_status ≡ OrderGlobalStatus.cancelled)
    × (t.row.inventory_status ≡ compensated)
    × (t.row.logistics_status ≡ compensated)
    × (t.row.billing_status ≢ success)
unfolding same_step same_status flush billing_row attempt inventory_row logistics_row
completed_can_be_undone_example = completed_can_be_undone (arranged-Reach (response 200)) refl

-- The delivery is refused, and a compensation undoes the charge and the reservation.
abbrev refused : Saga
refused = arranged (response 500)

abbrev undoing : Saga
undoing = record refused {
  row = flush 140 refused.row (begin_row 140 refused.row);
  undoing = undo_of refused.row ∷ [];
}

abbrev accepted : Replies
accepted = record { billing = response 200; inventory = response 200; logistics = response 200 }

abbrev cleared : Saga
cleared = record undoing {
  row = flush 150 undoing.row (close_row 0 (end_row (undo_of refused.row) accepted undoing.row));
  undoing = [];
}

cleared-Reach : Reach cleared
unfolding same_step same_status flush billing_row attempt inventory_row logistics_row
cleared-Reach =
    later (later (arranged-Reach (response 500)) (begin 140 refl refl))
      (end (undo_of refused.row) [] accepted 0 150 here refl)

cancelled_means_undone_example :
    (cleared.row.billing_status ≢ success)
    × (cleared.row.inventory_status ≢ success)
    × (cleared.row.logistics_status ≢ success)
    × (has_pending cleared.row ≡ false)
unfolding same_step same_status flush billing_row attempt inventory_row logistics_row end_row
    close_row undone
cancelled_means_undone_example = cancelled_means_undone cleared-Reach refl refl
