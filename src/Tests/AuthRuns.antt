-- ===== src/Tests/AuthRuns.antt =====
-- Accounts with one user and one refresh token, and tokens that are their own claims.
use saga_orchestrator_patter.Base.{
  String, ℕ, ◌+◌, ◌≡◌, refl, true, false, none, some, [], ◌∷◌, arith, ltb, leb, ◌&&◌, str_eq,
  str_eq_refl, if◌then◌else◌,
}
use saga_orchestrator_patter.Auth.{
  subject, Crypto, Claims, refresh, AuthEnv, Accounts, User, ok, error, RegisterRequest,
  LoginRequest, refresh_claims, access_claims,
}
use saga_orchestrator_patter.Auth.Service.{register, login, logout, refresh_tokens, is_stored}
use saga_orchestrator_patter.Auth.Endpoints.{
  TokenResponse, post_register, post_login, me-post_register,
}
use saga_orchestrator_patter.Auth.Bearer.{
  me, get_current_user, get_optional_current_user, verify_admin,
}
use saga_orchestrator_patter.Auth.Access.{admin_only, get_current_user-login, verify_admin_lem}
use saga_orchestrator_patter.Models.Enums.{user, admin}
use saga_orchestrator_patter.World.Effects.{committed}
use saga_orchestrator_patter.Auth.Laws.{refresh_tokens_rotate, refresh_tokens_race}

pub verified : (p h : String) → some p ≡ some h → some (str_eq p h) ≡ some true
verified p h e = ground (arith, str_eq_refl p)

abbrev pub open_crypto : Crypto
open_crypto = record {
  Token = Claims;
  encode = λ c. c;
  decode = λ now c. if leb c.iat now && ltb now c.exp then some c else none;
  hash_password = λ salt p. some p;
  verify_password = λ p h. some (str_eq p h);
  decode-encode = λ now c. refl;
  verify-hash = λ salt p h e. verified p h e;
}

abbrev pub request_at : ℕ → ℕ → AuthEnv
request_at now jti = record {
  now = now;
  access_expire_minutes = 15;
  refresh_expire_days = 30;
  access_jti = jti + 1;
  refresh_jti = jti;
  salt = 1;
  user_id = 4;
  token_id = 9;
  name_raced = false;
  meanwhile = λ st. st;
  committed = committed;
}

abbrev nobody : Accounts
nobody = record { users = []; tokens = [] }

abbrev ann : RegisterRequest
ann = record { username = "ann"; password = "password"; email = none }

abbrev old_claims : Claims
old_claims = record { sub = subject 4; jti = 50; type = some refresh; iat = 10; exp = 5000 }

abbrev one_token : Accounts
one_token = record {
  users = [];
  tokens =
      record {
        id = 8;
        user_id = 4;
        jti = 50;
        expires_at = 5000;
        created_at = 10;
        is_revoked = false;
      }
      ∷ [];
}

refresh_tokens_rotate_example :
    let st = (refresh_tokens open_crypto (request_at 100 60) old_claims one_token).1 in
    (refresh_tokens open_crypto (request_at 200 70) old_claims st ≡ (error 401, st))
    × ((refresh_tokens open_crypto (request_at 200 70) (refresh_claims (request_at 100 60) 4) st).0
        ≡ ok (access_claims (request_at 200 70) 4, refresh_claims (request_at 200 70) 4))
unfolding refresh_tokens
refresh_tokens_rotate_example =
    refresh_tokens_rotate open_crypto (request_at 100 60) (request_at 200 70) old_claims 4 one_token
      (access_claims (request_at 100 60) 4, refresh_claims (request_at 100 60) 4) refl
      (ground arith) refl (omega arith) (omega arith) refl

-- The second request runs while the first is between its SELECT and its UPDATE.
abbrev overtaken : AuthEnv
overtaken = record (request_at 100 60) {
  meanwhile = λ s. (refresh_tokens open_crypto (request_at 101 70) old_claims s).1;
}

refresh_tokens_race_example :
    ((refresh_tokens open_crypto (request_at 101 70) old_claims one_token).0
      ≡ ok (access_claims (request_at 101 70) 4, refresh_claims (request_at 101 70) 4))
    × ((refresh_tokens open_crypto overtaken old_claims one_token).0
        ≡ ok (access_claims overtaken 4, refresh_claims overtaken 4))
    × (is_stored open_crypto 60 (refresh_tokens open_crypto overtaken old_claims one_token).1.tokens
        ≡ true)
    × (is_stored open_crypto 70 (refresh_tokens open_crypto overtaken old_claims one_token).1.tokens
        ≡ true)
unfolding is_stored
refresh_tokens_race_example =
    refresh_tokens_race open_crypto overtaken (request_at 101 70) old_claims 4 one_token refl refl
      (omega arith) (omega arith) (omega arith) (omega arith) refl refl refl (ground arith)
      (ground arith) refl refl

-- Ann is a user, and Bob an admin.
abbrev pub ann_user : User
ann_user = record {
  id = 4;
  username = "ann";
  email = none;
  password_hash = "password";
  slack_account = none;
  role = user;
  created_at = 10;
}

abbrev pub bob_user : User
bob_user = record ann_user { id = 5; username = "bob"; role = admin }

abbrev pub both : Accounts
both = record { users = ann_user ∷ bob_user ∷ []; tokens = [] }

abbrev pub ann_entry : LoginRequest
ann_entry = record { username = "ann"; password = "password" }

get_current_user-login_example :
    let access = access_claims (request_at 100 60) 4 in
    let refresh = refresh_claims (request_at 100 60) 4 in
    (get_current_user open_crypto 500 (some access) ≡ ok 4)
    × (get_optional_current_user open_crypto 500 (some access) ≡ ok (some 4))
    × (get_current_user open_crypto 500 (some refresh) ≡ error 401)
    × ((other : AuthEnv) (st' : Accounts)
        → refresh_tokens open_crypto other access st' ≡ (error 401, st'))
    × ((other : AuthEnv) (st' : Accounts) → logout open_crypto other access st' ≡ (error 401, st'))
unfolding login
get_current_user-login_example =
    get_current_user-login open_crypto (request_at 100 60) ann_entry both 4
      (access_claims (request_at 100 60) 4) (refresh_claims (request_at 100 60) 4) 500 refl
      (omega arith) (omega arith)

verify_admin_lem_example :
    verify_admin open_crypto 500 (some (access_claims (request_at 100 60) 5)) both
    ≡ admin_only
        (get_current_user open_crypto 500 (some (access_claims (request_at 100 60) 5)))
        both.users
verify_admin_lem_example =
    verify_admin_lem open_crypto 500 (some (access_claims (request_at 100 60) 5)) both
      (refl, (refl, tt))

me-post_register_example :
    let st = (post_register open_crypto (request_at 100 60) ann nobody).1 in
    let entered = post_login open_crypto (request_at 200 70) ann_entry st in
    (t : TokenResponse open_crypto) × (entered.0 ≡ (200, some t))
    × (me open_crypto 300 (some t.access_token) entered.1
        ≡ ok (record { id = 4; username = "ann"; email = none; role = user; created_at = 100 }))
unfolding post_register register
me-post_register_example =
    me-post_register open_crypto (request_at 100 60) (request_at 200 70) ann nobody 300 refl refl
      (omega arith) (omega arith)
