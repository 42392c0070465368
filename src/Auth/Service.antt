-- ===== src/Auth/Service.antt =====
-- `UserService` of src/services/user.py.
use Prim.Native.String.{count}
use saga_orchestrator_patter.Base.{
  leb, ℕ, String, Bool, true, false, not, ◌&&◌, Option, none, some, List, ◌∷◌, str_eq,
  if◌then◌else◌,
}
use saga_orchestrator_patter.Models.Enums.{user}
use saga_orchestrator_patter.World.Effects.{Commit, rolled_back, lost}
use saga_orchestrator_patter.Auth.{
  Subject, no_subject, bad_subject, subject, Crypto, Claims, User, RefreshToken, Accounts,
  RegisterRequest, LoginRequest, AuthEnv, Reply, ok, error, get_by_username, get_by_email,
  get_by_jti, revoke_by_jti, access_claims, refresh_claims, create_token, is_refresh,
}

-- `await session.commit()` of a request that changed `before` to `after`; an exception is a 500.
abbrev settle : {A : Type 0} → Commit → A → Accounts → Accounts → Reply A × Accounts
settle Commit.committed a before after = (ok a, after)
settle rolled_back a before after = (error 500, before)
settle lost a before after = (error 500, after)

-- The status code that an email address which is taken leads to: the empty one is not looked up,
-- and violates the constraint of the column, as one beyond its width does.
email_conflict : Option String → List User → Option ℕ
email_conflict none us = none
email_conflict (some e) us = elim (get_by_email e us) [
  | none ↦ (if leb (count e) 255 then none else some 500)
  | some u ↦ some (if str_eq e "" then 500 else 409)
]

module _ (K : Crypto) where
  -- The user's id, the access token and the refresh token.
  tokens_for : AuthEnv → ℕ → ℕ × K.Token × K.Token
  tokens_for env id = (id, K.encode (access_claims env id), K.encode (refresh_claims env id))

  abbrev pub new_user : AuthEnv → RegisterRequest → String → User
  new_user env body password_hash = record {
    id = env.user_id;
    username = body.username;
    email = body.email;
    password_hash = password_hash;
    slack_account = none;
    role = user;
    created_at = env.now;
  }

  -- The INSERT of the user, with the token and the commit, once the password has been hashed.
  add_user :
      AuthEnv
      → RegisterRequest
      → Option String
      → Accounts
      → Reply (ℕ × K.Token × K.Token) × Accounts
  unfolding tokens_for
  add_user env body none st = (error 500, st)
  add_user env body (some hash) st =
      let with_user = record st { users = new_user env body hash ∷ st.users } in
      if env.name_raced
      then (error 500, st)
      else settle env.committed (tokens_for env env.user_id) st
          (create_token env env.user_id with_user)

  unfoldable pub register :
      AuthEnv → RegisterRequest → Accounts → Reply (ℕ × K.Token × K.Token) × Accounts
  unfolding email_conflict add_user
  register env body st = elim (get_by_username body.username st.users) [
    | some u ↦ (error 409, st)
    | none ↦ elim (email_conflict body.email st.users) [
      | some code ↦ (error code, st)
      | none ↦ add_user env body (K.hash_password env.salt body.password) st
    ]
  ]

  login_verified : AuthEnv → ℕ → Option Bool → Accounts → Reply (ℕ × K.Token × K.Token) × Accounts
  unfolding tokens_for
  login_verified env id none st = (error 500, st)
  login_verified env id (some false) st = (error 401, st)
  login_verified env id (some true) st =
      settle env.committed (tokens_for env id) st (create_token env id st)

  unfoldable pub login :
      AuthEnv → LoginRequest → Accounts → Reply (ℕ × K.Token × K.Token) × Accounts
  unfolding login_verified
  login env body st = elim (get_by_username body.username st.users) [
    | none ↦ (error 401, st)
    | some u ↦ login_verified env u.id (K.verify_password body.password u.password_hash) st
  ]

  -- The token is one that a refresh accepts.
  unfoldable pub is_stored : ℕ → List RefreshToken → Bool
  is_stored jti ts = elim (get_by_jti jti ts) [ none ↦ false | some t ↦ not t.is_revoked ]

  -- `int(payload["sub"])` raises before anything is written.
  rotate : AuthEnv → Subject → ℕ → Accounts → Reply (K.Token × K.Token) × Accounts
  rotate env no_subject jti st = (error 500, st)
  rotate env bad_subject jti st = (error 500, st)
  rotate env (subject id) jti st =
      settle env.committed (K.encode (access_claims env id), K.encode (refresh_claims env id)) st
        (create_token env id (record st { tokens = revoke_by_jti jti st.tokens }))

  refresh_claimed : AuthEnv → Option Claims → Accounts → Reply (K.Token × K.Token) × Accounts
  unfolding is_stored rotate
  refresh_claimed env none st = (error 401, st)
  refresh_claimed env (some c) st =
      if is_refresh c.type && is_stored c.jti st.tokens
      then rotate env c.sub c.jti (env.meanwhile st)
      else (error 401, st)

  unfoldable pub refresh_tokens :
      AuthEnv → K.Token → Accounts → Reply (K.Token × K.Token) × Accounts
  unfolding refresh_claimed
  refresh_tokens env token st = refresh_claimed env (K.decode env.now token) st

  logout_claimed : AuthEnv → Option Claims → Accounts → Reply Unit × Accounts
  logout_claimed env none st = (error 401, st)
  logout_claimed env (some c) st =
      if is_refresh c.type
      then settle env.committed tt st (record st { tokens = revoke_by_jti c.jti st.tokens })
      else (error 401, st)

  unfoldable pub logout : AuthEnv → K.Token → Accounts → Reply Unit × Accounts
  unfolding logout_claimed
  logout env token st = logout_claimed env (K.decode env.now token) st
