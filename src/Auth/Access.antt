-- ===== src/Auth/Access.antt =====
-- Who gets past the checks of the API.
use saga_orchestrator_patter.Base.{
  ℕ, ◌≤◌, ◌<◌, ◌+◌, ◌*◌, ◌≡◌, refl, ◌∙◌, false, Option, none, some, List, [], ◌∷◌, arith,
  if◌then◌else◌, Option-cases, inl, inr,
}
use saga_orchestrator_patter.Auth.{
  Crypto, AuthEnv, Accounts, User, LoginRequest, Reply, ok, error, access_claims, refresh_claims,
  get_by_id, check_id_admin_role, is_admin,
}
use saga_orchestrator_patter.Auth.Service.{login, refresh_tokens, logout}
use saga_orchestrator_patter.Auth.Bearer.{
  get_current_user, get_optional_current_user, verify_admin, check_admin,
}

-- The primary key of the table `users`.
abbrev pub UniqueIds : List User → Type 0
UniqueIds [] = Unit
UniqueIds (u ∷ us) = (get_by_id u.id us ≡ none) × UniqueIds us

-- The two SELECT statements of the check are about the same row.
check_id_admin_role_missing :
    (id : ℕ) (us : List User) → get_by_id id us ≡ none → check_id_admin_role id us ≡ false
check_id_admin_role_missing id [] missing = refl
check_id_admin_role_missing id (u ∷ us) missing = ground (arith, check_id_admin_role_missing id us)

check_id_admin_role_found :
    (id : ℕ) (us : List User) (u : User)
    → UniqueIds us
    → get_by_id id us ≡ some u
    → check_id_admin_role id us ≡ is_admin u.role
check_id_admin_role_found id [] u unique found = absurd (ground arith)
check_id_admin_role_found id (v ∷ us) u unique found =
    ground (
      arith,
      unique.0,
      check_id_admin_role_missing id us,
      check_id_admin_role_found id us u unique.1,
    )

-- Whom the endpoint lets in, of those who have shown who they are.
abbrev pub admin_only : Reply ℕ → List User → Reply User
admin_only (error code) us = error code
admin_only (ok id) us = elim (get_by_id id us) [
  | none ↦ error 403
  | some u ↦ if is_admin u.role then ok u else error 403
]

check_admin_lem :
    (r : Reply ℕ) (st : Accounts) → UniqueIds st.users → check_admin r st ≡ admin_only r st.users
unfolding check_admin
check_admin_lem (error code) st unique = refl
check_admin_lem (ok id) st unique = elim (Option-cases (get_by_id id st.users)) [
  | inl missing ↦ ground arith
  | inr (u, found) ↦ ground (arith, check_id_admin_role_found id st.users u unique)
]

module _ (K : Crypto) where
  -- The access token of a login that succeeded shows its user from then on until it expires, where
  -- a user is required and where one is optional; it is refused with 401 for a refresh and for a
  -- logout, without any change; and the refresh token is refused with 401 where a user is
  -- required.
  pub get_current_user-login :
      (env : AuthEnv) (body : LoginRequest) (st : Accounts) (id : ℕ) (access refresh : K.Token)
      (now : ℕ)
      → (login K env body st).0 ≡ ok (id, access, refresh)
      → env.now ≤ now
      → now < env.now + env.access_expire_minutes * 60
      → (get_current_user K now (some access) ≡ ok id)
        × (get_optional_current_user K now (some access) ≡ ok (some id))
        × (get_current_user K now (some refresh) ≡ error 401)
        × ((other : AuthEnv) (st' : Accounts)
            → refresh_tokens K other access st' ≡ (error 401, st'))
        × ((other : AuthEnv) (st' : Accounts) → logout K other access st' ≡ (error 401, st'))
  unfolding login get_current_user get_optional_current_user refresh_tokens logout
  get_current_user-login env body st id access refresh now done later young = (
    ground (arith, K.decode-encode now (access_claims env id)),
    ground (arith, K.decode-encode now (access_claims env id)),
    ground (arith, K.decode-encode now (refresh_claims env id)),
    λ other st'. ground (arith, K.decode-encode other.now (access_claims env id)),
    λ other st'. ground (arith, K.decode-encode other.now (access_claims env id)),
  )

  verify_admin-eq :
      (now : ℕ) (token : Option K.Token) (st : Accounts)
      → verify_admin K now token st ≡ check_admin (get_current_user K now token) st
  unfolding verify_admin get_current_user
  verify_admin-eq now none st = refl
  verify_admin-eq now (some token) st = refl

  -- If ids of users are unique, verify_admin, with its two SELECT statements, is the check of the
  -- one user whom the token shows: the error of the token if it has one, else 403 for a missing
  -- user and for one who is no admin, and else that user.
  pub verify_admin_lem :
      (now : ℕ) (token : Option K.Token) (st : Accounts)
      → UniqueIds st.users
      → verify_admin K now token st ≡ admin_only (get_current_user K now token) st.users
  verify_admin_lem now token st unique =
      verify_admin-eq now token st ∙ check_admin_lem (get_current_user K now token) st unique
