-- ===== src/Tests/WorkerRuns.antt =====
-- The workers on the queue of one new order.
use mathlib.Core.List.{head?}
use saga_orchestrator_patter.Base.{
  ◌≡◌, refl, true, false, none, some, List, [], ◌∷◌, arith, any, ◌||◌,
}
use saga_orchestrator_patter.Models.Order.{Order}
use saga_orchestrator_patter.Table.RowList.{row_list}
use saga_orchestrator_patter.Table.Rows.{keyed}
use saga_orchestrator_patter.World.Jobs.{
  response, failure, billing_job, compensation_job, process_inventory, process_logistic,
}
use saga_orchestrator_patter.World.Effects.{World, committed, rolled_back, commit, rescue}
use saga_orchestrator_patter.Orders.Request.{new_order}
use saga_orchestrator_patter.Orders.Columns.{fits_columns, has_nul}
use saga_orchestrator_patter.Orders.{create_bulk}
use saga_orchestrator_patter.Tasks.Inventory as Inventory
use saga_orchestrator_patter.Worker.{TaskEnv, Event, work, call, handle_all}
use saga_orchestrator_patter.Worker.Called.{Follows}
use saga_orchestrator_patter.Worker.Runs.{is_cancel, handle_all-Follows}
use saga_orchestrator_patter.Worker.Created.{is_sound, created_order_stays_sound}
use saga_orchestrator_patter.Worker.Errors.{call_rescued, call-other_rows}
use saga_orchestrator_patter.Worker.Registered.{has_unknown, handle_all-known}
use saga_orchestrator_patter.Tests.Fixtures.{
  placed, billed, neighbour, world_of, two_orders, billing_env, step_env, compensation_env,
}
use saga_orchestrator_patter.Tests.SagaRuns.{start, start-Reach}
use saga_orchestrator_patter.Tests.OrderRequests.{create_env, request}

abbrev pub all_well : TaskEnv row_list
all_well = record {
  billing = billing_env (response 200) committed;
  inventory = step_env (response 200) committed;
  logistics = step_env (response 200) committed;
  compensation = compensation_env (response 200);
  gauge_read = true;
}

-- The parts are not there.
abbrev refused : TaskEnv row_list
refused = record all_well { inventory = step_env failure committed }

abbrev broken : TaskEnv row_list
broken = record all_well { inventory = step_env (response 200) rolled_back }

abbrev nothing : World row_list
nothing = record (world_of billed) { rows = ([], tt) }

abbrev world_with_job : Order → World row_list
world_with_job o = record (world_of o) { jobs = billing_job o.id ∷ [] }

-- Billing, then the two steps, of which one fails, and its compensation.
abbrev events : List (Event row_list)
events = work 0 all_well ∷ work 1 refused ∷ work 1 all_well ∷ work 0 all_well ∷ []

created_order_stays_sound_example :
    let o = new_order 20 200 none (request "new") in
    let w = (create_bulk create_env none (request "new" ∷ []) nothing).1 in
    (row : Order) × (keyed 20 (handle_all events w).rows.0 ≡ some row)
    × (is_sound (any (is_cancel 20) events) row ≡ true)
unfolding create_bulk new_order fits_columns has_nul
created_order_stays_sound_example =
    created_order_stays_sound create_env none (request "new" ∷ []) nothing
      (new_order 20 200 none (request "new") ∷ []) [] (new_order 20 200 none (request "new"))
      record { differ = λ m n e. omega arith; unused = λ n. refl } refl refl (λ f. refl) events
      (
        (λ _. refl, λ _. refl),
        ((λ _. refl, λ _. refl), ((λ _. refl, λ _. refl), ((λ _. refl, λ _. refl), tt))),
      )

handle_all-Follows_example :
    Follows (false || any (is_cancel 7) events) 7 (handle_all events (world_with_job placed))
handle_all-Follows_example =
    handle_all-Follows 7 events (world_with_job placed) false
      (
        (λ _. refl, λ _. refl),
        ((λ _. refl, λ _. refl), ((λ _. refl, λ _. refl), ((λ _. refl, λ _. refl), tt))),
      )
      (start, start-Reach, refl, ground arith)

call_rescued_example :
    head? (call broken process_inventory 7 0 (world_of billed)).1.jobs ≡ some (compensation_job 7)
unfolding Inventory.process_inventory Inventory.write_phase commit rescue
call_rescued_example = call_rescued broken 7 0 (world_of billed) process_inventory refl refl

call-other_rows_example :
    keyed 8 (call all_well process_logistic 7 0 two_orders).1.rows.0 ≡ some neighbour
call-other_rows_example =
    call-other_rows all_well 7 0 two_orders (λ _. refl) (λ _. refl) process_logistic 8
      (ground arith)

handle_all-known_example : has_unknown (handle_all events two_orders).jobs ≡ false
handle_all-known_example = handle_all-known events two_orders refl
