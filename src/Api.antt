-- ===== src/Api.antt =====
-- src/api/endpoints/order.py behind the checks of src/api/dependencies.py: the order endpoints as a
-- client meets them, with the token of the Authorization header.
pub mod Stored
use saga_orchestrator_patter.Base.{
  ℕ, ◌<◌, ◌+◌, ◌*◌, ◌≡◌, refl, String, not, any, ◌≤◌, ◌||◌, sym, ◌∙◌, Bool, true, false, ◌⊎◌, inl,
  inr, Option, none, some, List, [], ◌∷◌, arith, str_eq, if◌then◌else◌, Option-cases, Bool-cases,
}
use saga_orchestrator_patter.Models.Enums.{admin, manual_intervention_required, is_manual}
use saga_orchestrator_patter.Models.Order.{Order}
use saga_orchestrator_patter.Table.{OrderTable}
use saga_orchestrator_patter.World.Jobs.{billing_job}
use saga_orchestrator_patter.World.Effects.{Commit, World}
use saga_orchestrator_patter.Orders.Request.{OrderCreate, new_order}
use saga_orchestrator_patter.Orders.{
  CreateEnv, created, CreateResult, create_bulk, create_orders, is_requested, has_big_id,
  misses_goods, insert_all, enqueue_billing,
}
use saga_orchestrator_patter.Orders.Endpoint.{
  Payload, data_list, single, Answer, one, answer, create, ForceEnv, force_cancel,
}
use saga_orchestrator_patter.Orders.Validation.{is_valid, new_order-fits}
use saga_orchestrator_patter.Orders.Columns.{fits_integer, fits_columns}
use saga_orchestrator_patter.Orders.Answers.{create_single_answers}
use saga_orchestrator_patter.Auth.{
  Crypto, AuthEnv, Accounts, User, LoginRequest, Reply, ok, error, get_by_id,
}
use saga_orchestrator_patter.Auth.Service.{login}
use saga_orchestrator_patter.Auth.Bearer.{get_current_user, get_optional_current_user, verify_admin}
use saga_orchestrator_patter.Auth.Access.{
  UniqueIds, admin_only, verify_admin_lem, get_current_user-login,
}

module _ {T : OrderTable} where
  -- A body that does not validate is answered by 422, once the token has passed.
  create_as : Reply (Option ℕ) → (String → Bool) → CreateEnv → Payload → World T → Answer × World T
  create_as (error code) is_email env p w = (Answer.error code, w)
  create_as (ok buyer) is_email env p w =
      if any (λ d. not (is_valid is_email d)) (data_list p)
      then (Answer.error 422, w)
      else create env buyer p w

  force_cancel_as : Reply User → ForceEnv T → ℕ → World T → ℕ × World T
  force_cancel_as (ok u) env id w = force_cancel env id w
  force_cancel_as (error code) env id w = (code, w)

  module _ (K : Crypto) (now : ℕ) (token : Option K.Token) where
    -- POST /orders/
    unfoldable pub post_orders : (String → Bool) → CreateEnv → Payload → World T → Answer × World T
    unfolding create_as
    post_orders is_email env p w =
        create_as (get_optional_current_user K now token) is_email env p w

    -- PATCH /admin/orders/{order_id}/force-cancel
    unfoldable pub patch_force_cancel : Accounts → ForceEnv T → ℕ → World T → ℕ × World T
    unfolding force_cancel_as
    patch_force_cancel st env id w = force_cancel_as (verify_admin K now token st) env id w

-- The token shows a user who is an admin.
pub record IsAdmin (K : Crypto) (now : ℕ) (token : Option K.Token) (st : Accounts) : Type 0 where
  pub id : ℕ
  pub user : User
  pub resolved : get_current_user K now token ≡ ok id
  pub found : get_by_id id st.users ≡ some user
  pub role : user.role ≡ admin

admin_only-IsAdmin :
    (r : Reply ℕ) (us : List User) (u : User)
    → admin_only r us ≡ ok u
    → (id : ℕ) × (r ≡ ok id) × (get_by_id id us ≡ some u) × (u.role ≡ admin)
admin_only-IsAdmin (error code) us u passed = absurd (ground arith)
admin_only-IsAdmin (ok id) us u passed = elim (Option-cases (get_by_id id us)) [
  | inl missing ↦ absurd (ground arith)
  | inr (v, found) ↦ (id, refl, ground arith, ground arith)
]

-- A change is made only to an order that waits for an admin.
force_cancel_or_same :
    {T : OrderTable} (env : ForceEnv T) (id : ℕ) (w : World T)
    → ((force_cancel env id w).1 ≡ w)
      ⊎ ((o : Order) × (T.find id w.rows ≡ some o)
          × (o.global_status ≡ manual_intervention_required))
unfolding force_cancel
force_cancel_or_same {T} env id w = elim (Option-cases (T.find id w.rows)) [
  | inl missing ↦ inl (ground arith)
  | inr (o, found) ↦ elim (Bool-cases (is_manual o.global_status)) [
    | inl manual ↦ inr (o, found, ground arith)
    | inr other ↦ inl (ground arith)
  ]
]

module _ {T : OrderTable} (K : Crypto) (now : ℕ) (token : Option K.Token) (st : Accounts)
    (env : ForceEnv T) (id : ℕ) (w : World T) where
  -- If ids of users are unique, a PATCH of force-cancel changes nothing at all, or its access
  -- token is valid and shows a user whose role is admin, and the order was in
  -- MANUAL_INTERVENTION_REQUIRED.
  pub patch_force_cancel-IsAdmin :
      UniqueIds st.users
      → ((patch_force_cancel K now token st env id w).1 ≡ w)
        ⊎ (IsAdmin K now token st
            × ((o : Order) × (T.find id w.rows ≡ some o)
                × (o.global_status ≡ manual_intervention_required)))
  unfolding patch_force_cancel
  patch_force_cancel-IsAdmin unique = allowed (verify_admin K now token st) refl
    where
      allowed :
          (r : Reply User)
          → verify_admin K now token st ≡ r
          → ((force_cancel_as r env id w).1 ≡ w)
            ⊎ (IsAdmin K now token st
                × ((o : Order) × (T.find id w.rows ≡ some o)
                    × (o.global_status ≡ manual_intervention_required)))
      allowed (error code) e = inl refl
      allowed (ok u) e = elim (force_cancel_or_same env id w) [
        | inl same ↦ inl same
        | inr order ↦
            let (user_id, resolved, found, role) =
              admin_only-IsAdmin (get_current_user K now token) st.users u
                (sym (verify_admin_lem K now token st unique) ∙ e) in
            inr (
              record { id = user_id; user = u; resolved = resolved; found = found; role = role },
              order,
            )
      ]

module _ {T : OrderTable} (K : Crypto) (env : AuthEnv) (body : LoginRequest) (st : Accounts)
    (id : ℕ) (access refresh : K.Token) (now : ℕ) where
  -- A valid request for one order, sent with an access token from a login that has not expired, is
  -- answered, if the service makes the order, by 201 with the order made from the request for the
  -- user who has logged in, or by 200 with an order of the same idempotency key.
  post_orders-login :
      (is_email : String → Bool) (call : CreateEnv) (d : OrderCreate) (w : World T)
      (new old : List Order)
      → (login K env body st).0 ≡ ok (id, access, refresh)
      → env.now ≤ now
      → now < env.now + env.access_expire_minutes * 60
      → is_valid is_email d ≡ true
      → (create_bulk call (some id) (d ∷ []) w).0 ≡ created new old
      → ((post_orders K now (some access) is_email call (single d) w).0
          ≡ one 201 (new_order (call.uuid 0) call.now (some id) d))
        ⊎ ((e : Order) × ((post_orders K now (some access) is_email call (single d) w).0
              ≡ one 200 e)
            × (str_eq d.idempotency_key e.idempotency_key ≡ true))
  unfolding post_orders
  post_orders-login is_email call d w new old logged later young valid first =
      let (_, buyer, _, _, _) =
        get_current_user-login K env body st id access refresh now logged later young in
      rw (buyer, valid) (create_single_answers call (some id) d w new old first)
