-- ===== src/Worker/Created.antt =====
-- An order from the request that creates it to any later moment.
use saga_orchestrator_patter.Base.{
  ℕ, suc, ◌+◌, ◌≤◌, ◌≡◌, refl, sym, ap, ◌∙◌, Bool, true, false, not, Option, some, List, ◌∷◌, [],
  arith, ◌&&◌, ◌||◌, any, if◌then◌else◌,
}
use saga_orchestrator_patter.Models.Enums.{
  OrderGlobalStatus, processing, completed, pending, is_success, is_paid,
}
use saga_orchestrator_patter.Models.Order.{Order, statuses}
use saga_orchestrator_patter.Table.{OrderTable}
use saga_orchestrator_patter.Table.Rows.{keyed, Distinct, Distinct-keep}
use saga_orchestrator_patter.World.Jobs.{
  Function, process_billing, process_inventory, process_logistic, billing_job,
}
use saga_orchestrator_patter.World.Effects.{World, enqueue}
use saga_orchestrator_patter.Tasks.Compensation.Row.{has_pending, is_left}
use saga_orchestrator_patter.Scheduler.Updates.{is_some}
use saga_orchestrator_patter.Orders.Request.{OrderCreate, new_order}
use saga_orchestrator_patter.Orders.{
  CreateEnv, created, create_bulk, create_orders, enqueue_billing, new_orders, is_requested, unseen,
  insert_all,
}
use saga_orchestrator_patter.Orders.Saved.{
  find-insert_all, Unused-keep, Unused-new_orders, Distinct-new_orders,
}
use saga_orchestrator_patter.Orders.Idempotent.{
  IsFresh, requested, rows_of_created, create_bulk_known, known_of_created,
}
use saga_orchestrator_patter.Saga.{waiting, queued, Saga, new}
use saga_orchestrator_patter.Saga.Invariant.{Reach-Inv, is_clean}
use saga_orchestrator_patter.Worker.Forward.{same_forward, count}
use saga_orchestrator_patter.Worker.Called.{Follows}
use saga_orchestrator_patter.Worker.Runs.{is_cancel, handle_all-Follows}
use saga_orchestrator_patter.Worker.{Event, handle_all, AllAlone}

-- The columns of a new order.
keyed-unseen :
    (existing : List Order) (i : ℕ) (uuid : ℕ → ℕ) (n now : ℕ) (buyer : Option ℕ)
    (ds : List OrderCreate) (o : Order)
    → keyed i (unseen existing (new_orders uuid n now buyer ds)) ≡ some o
    → (statuses o ≡ (pending, pending, pending, processing)) × (o.id ≡ i)
unfolding new_order
keyed-unseen existing i uuid n now buyer [] o h = absurd (ground arith)
keyed-unseen existing i uuid n now buyer (d ∷ ds) o h =
    ground (arith, keyed-unseen existing i uuid (suc n) now buyer ds o)

-- One billing job for each saved order, and no other forward job.
count-enqueue :
    {T : OrderTable} (env : CreateEnv) (f : Function) (i : ℕ) (os : List Order) (w : World T)
    → Distinct os
    → count f i (enqueue_billing env os w).jobs
      ≤ (if is_some (keyed i os) && same_forward f process_billing then 1 else 0) + count f i w.jobs
unfolding enqueue_billing
count-enqueue env f i [] w d = ground arith
count-enqueue env f i (o ∷ os) w d =
    let w' = enqueue (env.sent o.id) (billing_job o.id) w in
    ground (arith, count-enqueue env f i os w' d.1, d.0)

module _ {T : OrderTable} (env : CreateEnv) (buyer : Option ℕ) (ds : List OrderCreate) (w : World T)
    (made old : List Order) where
  lists_of_created :
      (orders : List Order)
      → (create_orders env orders w).0 ≡ created made old
      → (made ≡ unseen (T.select (is_requested orders) w.rows) orders)
        × ((create_orders env orders w).1.jobs
            ≡ (enqueue_billing env made (record w { rows = insert_all T made w.rows })).jobs)
  unfolding create_orders
  lists_of_created orders first = ground arith

  -- A new order, with its billing job in the queue, is a saga at its start.
  created-Follows :
      (o : Order)
      → IsFresh env w
      → (create_bulk env buyer ds w).0 ≡ created made old
      → keyed o.id made ≡ some o
      → ((f : Function) → count f o.id w.jobs ≡ 0)
      → Follows false o.id (create_bulk env buyer ds w).1
  created-Follows o fresh first saved no_jobs =
      let orders = requested env buyer ds in
      let existing = T.select (is_requested orders) w.rows in
      let same =
        create_bulk_known env buyer ds w (known_of_created env buyer ds w made old first) in
      let first' : (create_orders env orders w).0 ≡ created made old =
        ap (λ r. r.0) (sym same) ∙ first in
      let (is_made, jobs) = lists_of_created orders first' in
      let distinct = Distinct-new_orders env.uuid fresh.differ env.now buyer 0 ds in
      let distinct' : Distinct made = rw is_made (Distinct-keep _ orders distinct) in
      let saved' : keyed o.id (unseen existing orders) ≡ some o =
        ap (keyed o.id) (sym is_made) ∙ saved in
      let (columns, _) = keyed-unseen existing o.id env.uuid 0 env.now buyer ds o saved' in
      let w1 = record w { rows = insert_all T made w.rows } in
      let start : Saga = record {
        row = o;
        billing = queued;
        inventory = waiting;
        logistics = waiting;
        undoing = [];
        flagged = false;
        asked = false;
        forced = false;
      } in
      let found : T.find o.id (create_orders env orders w).1.rows ≡ some o =
        ap (T.find o.id) (rows_of_created env orders w made old first')
        ∙ find-insert_all T (unseen existing orders) w.rows o.id (Distinct-keep _ orders distinct) (
            Unused-keep T _ orders w.rows
              (Unused-new_orders T env.uuid 0 env.now buyer ds w.rows fresh.unused))
        ∙ ground (arith, saved') in
      rw same (
        start,
        new (ground arith),
        refl,
        record {
          found = found;
          billing = ground (
            arith,
            jobs,
            no_jobs process_billing,
            count-enqueue env process_billing o.id made w1 distinct',
          );
          inventory = ground (
            arith,
            jobs,
            no_jobs process_inventory,
            count-enqueue env process_inventory o.id made w1 distinct',
          );
          logistics = ground (
            arith,
            jobs,
            no_jobs process_logistic,
            count-enqueue env process_logistic o.id made w1 distinct',
          );
        },
      )

-- What the global status of a row promises about its steps; an admin's force-cancel promises nothing.
pub is_sound : Bool → Order → Bool
is_sound forced o = elim o.global_status [
  | completed ↦
      is_success o.inventory_status && is_success o.logistics_status && is_paid o.billing_status
  | processing ↦ has_pending o && is_clean o.inventory_status && is_clean o.logistics_status
  | OrderGlobalStatus.cancelled ↦ forced || (not (has_pending o) && not (is_left o))
  | _ ↦ true
]

Follows-sound :
    {T : OrderTable} (allowed : Bool) (id : ℕ) (w : World T)
    → Follows allowed id w
    → (row : Order) × (T.find id w.rows ≡ some row) × (is_sound allowed row ≡ true)
unfolding is_sound
Follows-sound allowed id w (s, r, may, h) = (s.row, h.found, ground (arith, Reach-Inv r))

module _ {T : OrderTable} (env : CreateEnv) (buyer : Option ℕ) (ds : List OrderCreate) (w : World T)
    (made old : List Order) (o : Order) where
  -- Let a request that succeeds create an order, where the ids made for the request differ and no
  -- row has one of them, and no job of billing, inventory or logistics waits for the order yet.
  -- Whatever list of events follows, workers that take jobs in any order, jobs that are dropped,
  -- polls, checks for dead orders and force-cancels, each with arbitrary failures but none
  -- overlapping another, the order is in the table and its row is sound: COMPLETED has inventory
  -- and logistics in SUCCESS and billing in SUCCESS or SKIPPED; PROCESSING has a PENDING step and
  -- no failed or undone one of inventory and logistics; CANCELLED has no step PENDING or in
  -- SUCCESS, unless one of the events is a force-cancel of the order.
  pub created_order_stays_sound :
      IsFresh env w
      → (create_bulk env buyer ds w).0 ≡ created made old
      → keyed o.id made ≡ some o
      → ((f : Function) → count f o.id w.jobs ≡ 0)
      → (es : List (Event T)) → AllAlone es
      → (row : Order) × (T.find o.id (handle_all es (create_bulk env buyer ds w).1).rows ≡ some row)
        × (is_sound (any (is_cancel o.id) es) row ≡ true)
  created_order_stays_sound fresh first saved no_jobs es alone =
      Follows-sound (any (is_cancel o.id) es) o.id (handle_all es (create_bulk env buyer ds w).1) (
        handle_all-Follows o.id es (create_bulk env buyer ds w).1 false alone
          (created-Follows env buyer ds w made old o fresh first saved no_jobs))
