-- ===== src/Tests/OrderRequests.antt =====
-- Requests for orders, and the admin's force-cancel.
use mathlib.Core.Option
use saga_orchestrator_patter.Base.{
  ◌+◌, ◌==◌, ◌≡◌, refl, String, true, false, some, [], ◌∷◌, List, arith, if◌then◌else◌,
}
use saga_orchestrator_patter.Models.Enums.{
  OrderGlobalStatus, prepayment, success, failed, manual_intervention_required,
}
use saga_orchestrator_patter.Models.Order.{Order}
use saga_orchestrator_patter.Table.RowList.{row_list}
use saga_orchestrator_patter.Table.Rows.{keyed}
use saga_orchestrator_patter.World.Jobs.{Function, JobId, saga_scheduler}
use saga_orchestrator_patter.World.Effects.{committed}
use saga_orchestrator_patter.Orders.Request.{OrderCreate, new_order}
use saga_orchestrator_patter.Orders.Endpoint.{
  ForceEnv, force_cancel, code_for, waits_for_admin, force_cancel_settles,
}
use saga_orchestrator_patter.Orders.Columns.{fits_columns, has_nul}
use saga_orchestrator_patter.Orders.Saved.{asks_for}
use saga_orchestrator_patter.Orders.Idempotent.{create_bulk_again}
use saga_orchestrator_patter.Orders.{CreateEnv, created, create_bulk, has_key}
use saga_orchestrator_patter.Tests.Fixtures.{placed, order_with, world_of}

abbrev pub create_env : CreateEnv
create_env = record {
  good_exists = λ _. true;
  buyer_exists = λ _. true;
  uuid = λ n. n + 20;
  now = 200;
  key_taken = false;
  committed = committed;
  sent = λ _. true;
}

-- The key "k" is that of the order which the table holds; "new" is not.
abbrev pub request : String → OrderCreate
request key = record {
  good_id = 1;
  idempotency_key = key;
  payment_type = prepayment;
  quantity = 2;
  order_details = record {
    guest_email = "e";
    guest_phone = "0";
    region = "r";
    city = "c";
    delivery_service = "d";
    postal_address = "p";
  };
}

abbrev pub manual : Order
manual = order_with 7 prepayment success failed success manual_intervention_required

abbrev pub force_env : ForceEnv row_list
force_env = record { meanwhile = λ rows. rows; committed = committed; now = 300; sent = true }

force_cancel_settles_example :
    let r = force_cancel force_env 7 (world_of manual) in
    (r.0 ≡ code_for (some manual))
    × (r.1.jobs ≡ (
        if waits_for_admin (some manual)
        then record {
          function = Function.sync_manual_intervention_gauge;
          order_id = 0;
          retry_count = 0;
          job_id = JobId.gauge_at 300;
          queue = saga_scheduler;
          defer_by = 0;
        }
          ∷ []
        else []))
    × (keyed 7 r.1.rows.0 ≡ (
        if waits_for_admin (some manual)
        then (if 7 == 7
            then Option.map {A = Order}
                (λ o. record o { global_status = OrderGlobalStatus.cancelled; updated_at = 300 })
                (some manual)
            else some manual)
        else some manual))
force_cancel_settles_example = force_cancel_settles force_env 7 (world_of manual) refl refl 7

create_bulk_again_example :
    let w = world_of placed in
    let ds = request "k" ∷ request "new" ∷ [] in
    (again : List Order) × (create_bulk create_env
        (some 5)
        ds
        (create_bulk create_env (some 4) ds w).1
      ≡ (created [] again, (create_bulk create_env (some 4) ds w).1))
    × ((k : String) → asks_for k ds ≡ true → has_key k again ≡ true)
unfolding create_bulk new_order fits_columns has_nul
create_bulk_again_example =
    create_bulk_again create_env create_env (some 4) (some 5) (request "k" ∷ request "new" ∷ [])
      (world_of placed) (new_order 21 200 (some 4) (request "new") ∷ []) (placed ∷ [])
      record { differ = λ m n e. omega arith; unused = λ n. ground arith } refl (λ _. refl) refl
