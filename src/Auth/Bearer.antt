-- ===== src/Auth/Bearer.antt =====
-- src/api/dependencies.py: who sends a request, by the token of its Authorization header; and
-- GET /auth/me of src/api/endpoints/user.py.
use saga_orchestrator_patter.Base.{ℕ, String, Option, none, some, if◌then◌else◌}
use saga_orchestrator_patter.Models.Enums.{UserPrivileges}
use saga_orchestrator_patter.Auth.{
  Crypto, Claims, Subject, no_subject, bad_subject, subject, User, Accounts, Reply, ok, error,
  is_access, get_by_id, check_id_admin_role,
}

-- `TokenUser(id=int(sub))`, by its id; nothing catches the ValueError of `int`.
token_user : Subject → Reply ℕ
token_user no_subject = error 401
token_user bad_subject = error 500
token_user (subject id) = ok id

resolve_claims : Option Claims → Reply ℕ
unfolding token_user
resolve_claims none = error 401
resolve_claims (some c) = if is_access c.type then token_user c.sub else error 401

-- The answer of `/auth/me`.
pub record UserResponse : Type 0 where
  pub id : ℕ
  pub username : String
  pub email : Option String
  pub role : UserPrivileges
  pub created_at : ℕ

-- `model_validate` refuses None, which nothing catches.
validate_user : Option User → Reply UserResponse
validate_user none = error 500
validate_user (some u) = ok (record {
  id = u.id;
  username = u.username;
  email = u.email;
  role = u.role;
  created_at = u.created_at;
})

require_admin : ℕ → Accounts → Option User → Reply User
require_admin id st none = error 403
require_admin id st (some u) = if check_id_admin_role id st.users then ok u else error 403

unfoldable pub check_admin : Reply ℕ → Accounts → Reply User
unfolding require_admin
check_admin (error code) st = error code
check_admin (ok id) st = require_admin id st (get_by_id id st.users)

module _ (K : Crypto) (now : ℕ) where
  resolve_token : K.Token → Reply ℕ
  unfolding resolve_claims
  resolve_token token = resolve_claims (K.decode now token)

  unfoldable pub get_current_user : Option K.Token → Reply ℕ
  unfolding resolve_token
  get_current_user none = error 401
  get_current_user (some token) = resolve_token token

  unfoldable pub get_optional_current_user : Option K.Token → Reply (Option ℕ)
  unfolding resolve_token
  get_optional_current_user none = ok none
  get_optional_current_user (some token) = elim (resolve_token token) [
    | ok id ↦ ok (some id)
    | error code ↦ error code
  ]

  unfoldable pub verify_admin : Option K.Token → Accounts → Reply User
  unfolding resolve_token check_admin
  verify_admin none st = error 401
  verify_admin (some token) st = check_admin (resolve_token token) st

  unfoldable pub me : Option K.Token → Accounts → Reply UserResponse
  unfolding get_current_user validate_user
  me token st = elim (get_current_user token) [
    | ok id ↦ validate_user (get_by_id id st.users)
    | error code ↦ error code
  ]
