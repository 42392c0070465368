-- ===== src/Tests/ApiRuns.antt =====
-- Requests with a token.
use saga_orchestrator_patter.Base.{
  Bool, ◌≡◌, refl, String, true, ◌⊎◌, none, some, [], ◌∷◌, if◌then◌else◌, false,
}
use saga_orchestrator_patter.Models.Enums.{manual_intervention_required}
use saga_orchestrator_patter.Models.Order.{Order}
use saga_orchestrator_patter.Orders.Request.{new_order}
use saga_orchestrator_patter.Orders.Validation.{is_valid}
use saga_orchestrator_patter.Orders.Columns.{has_nul}
use saga_orchestrator_patter.Orders.Endpoint.{Answer, one, single}
use saga_orchestrator_patter.Auth.{access_claims}
use saga_orchestrator_patter.Auth.Bearer.{get_optional_current_user}
use saga_orchestrator_patter.Api.{
  IsAdmin, post_orders, patch_force_cancel, patch_force_cancel-IsAdmin,
}
use saga_orchestrator_patter.Api.Stored.{is_acceptable, post_orders_stored}
use saga_orchestrator_patter.Table.RowList.{row_list}
use saga_orchestrator_patter.World.Jobs.{billing_job}
use saga_orchestrator_patter.Tests.Fixtures.{placed, world_of}
use saga_orchestrator_patter.Tests.OrderRequests.{create_env, request, manual, force_env}
use saga_orchestrator_patter.Tests.AuthRuns.{open_crypto, request_at, both}

abbrev is_email : String → Bool
is_email _ = true

patch_force_cancel-IsAdmin_example :
    let token = some (access_claims (request_at 100 60) 5) in
    ((patch_force_cancel open_crypto 500 token both force_env 7 (world_of manual)).1
      ≡ world_of manual)
    ⊎ (IsAdmin open_crypto 500 token both
        × ((o : Order) × (some manual ≡ some o) × (o.global_status ≡ manual_intervention_required)))
patch_force_cancel-IsAdmin_example =
    patch_force_cancel-IsAdmin open_crypto 500 (some (access_claims (request_at 100 60) 5)) both
      force_env 7 (world_of manual) (refl, (refl, tt))

abbrev requested : Order
requested = new_order (create_env.uuid 0) create_env.now none (request "new")

post_orders_stored_example :
    let r =
      post_orders open_crypto 500 none is_email create_env
        (single (request "new"))
        (world_of placed) in
    (r ≡ (
      if is_acceptable create_env none (request "new")
      then (
        one 201 requested,
        record (world_of placed) {
          rows = row_list.insert requested (world_of placed).rows;
          jobs = billing_job (create_env.uuid 0) ∷ [];
        },
      )
      else (Answer.error 500, world_of placed)))
    × (row_list.find (create_env.uuid 0) r.1.rows
        ≡ (if is_acceptable create_env none (request "new") then some requested else none))
unfolding get_optional_current_user is_valid new_order has_nul
post_orders_stored_example =
    post_orders_stored open_crypto 500 none is_email create_env none (request "new")
      (world_of placed) refl refl refl refl refl refl refl refl

request_accepted : is_acceptable create_env none (request "new") ≡ true
unfolding has_nul
request_accepted = refl

-- A NUL in the address, and a buyer who is not in the table of users.
nul_refused :
    is_acceptable create_env none record (request "new") {
      order_details = record (request "new").order_details { postal_address = "p\0" };
    }
    ≡ false
unfolding has_nul
nul_refused = refl

stranger_refused :
    is_acceptable record create_env { buyer_exists = λ _. false } (some 4) (request "new") ≡ false
unfolding has_nul
stranger_refused = refl
