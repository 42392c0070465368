-- ===== src/Auth/Endpoints.antt =====
-- src/api/endpoints/user.py, with the bounds that src/schemas/auth.py sets. An answer is its status
-- code with the tokens, if it holds any; `token_type` is always "bearer".
use Prim.Native.String.{count}
use saga_orchestrator_patter.Base.{
  ℕ, ◌≤◌, ◌<◌, ◌+◌, ◌*◌, ◌≡◌, String, Bool, ◌&&◌, Option, none, some, ◌∷◌, arith, leb,
  if◌then◌else◌, Option-cases, inl, inr, ap, ◌∙◌,
}
use saga_orchestrator_patter.Models.Enums.{user}
use saga_orchestrator_patter.World.Effects.{committed}
use saga_orchestrator_patter.Auth.{
  Crypto, AuthEnv, Accounts, RegisterRequest, LoginRequest, Reply, ok, error, access_claims,
  refresh_claims,
}
use saga_orchestrator_patter.Auth.Service.{register, login, refresh_tokens, logout, new_user}
use saga_orchestrator_patter.Auth.Laws.{login-register}
use saga_orchestrator_patter.Auth.Bearer.{me}

-- `RegisterRequest`
abbrev pub is_valid_registration : RegisterRequest → Bool
is_valid_registration body =
    leb 3 (count body.username) && leb (count body.username) 20 && leb 8 (count body.password)

pub record TokenResponse (K : Crypto) : Type 0 where
  pub access_token : K.Token
  pub refresh_token : K.Token

module _ (K : Crypto) where
  with_tokens : ℕ → Reply (ℕ × K.Token × K.Token) → ℕ × Option (TokenResponse K)
  with_tokens code (ok (id, access, refresh)) =
      (code, some (record { access_token = access; refresh_token = refresh }))
  with_tokens code (error e) = (e, none)

  with_pair : Reply (K.Token × K.Token) → ℕ × Option (TokenResponse K)
  with_pair (ok (access, refresh)) =
      (200, some (record { access_token = access; refresh_token = refresh }))
  with_pair (error e) = (e, none)

  code_of : Reply Unit → ℕ
  code_of (ok _) = 204
  code_of (error e) = e

  unfoldable pub post_register :
      AuthEnv → RegisterRequest → Accounts → (ℕ × Option (TokenResponse K)) × Accounts
  unfolding with_tokens
  post_register env body st =
      if is_valid_registration body
      then (with_tokens 201 (register K env body st).0, (register K env body st).1)
      else ((422, none), st)

  unfoldable pub post_login :
      AuthEnv → LoginRequest → Accounts → (ℕ × Option (TokenResponse K)) × Accounts
  unfolding with_tokens
  post_login env body st = (with_tokens 200 (login K env body st).0, (login K env body st).1)

  unfoldable pub post_refresh :
      AuthEnv → K.Token → Accounts → (ℕ × Option (TokenResponse K)) × Accounts
  unfolding with_pair
  post_refresh env token st =
      (with_pair (refresh_tokens K env token st).0, (refresh_tokens K env token st).1)

  unfoldable pub post_logout : AuthEnv → K.Token → Accounts → ℕ × Accounts
  unfolding code_of
  post_logout env token st = (code_of (logout K env token st).0, (logout K env token st).1)

  module _ (env : AuthEnv) (body : RegisterRequest) (st : Accounts) where
    -- A registration answered by 201 has added the user.
    post_register-users :
        (post_register env body st).0.0 ≡ 201
        → (hash : String) × ((register K env body st).0
            ≡ ok (
              env.user_id,
              K.encode (access_claims env env.user_id),
              K.encode (refresh_claims env env.user_id),
            ))
          × ((post_register env body st).1 ≡ (register K env body st).1)
          × ((register K env body st).1.users ≡ new_user K env body hash ∷ st.users)
    unfolding post_register register
    post_register-users done = elim (Option-cases (K.hash_password env.salt body.password)) [
      | inl refused ↦ absurd (ground arith)
      | inr (hash, hashed) ↦ (hash, ground arith, ground arith, ground arith)
    ]

  module _ (env env' : AuthEnv) (body : RegisterRequest) (st : Accounts) (now : ℕ) where
    -- After a registration answered by 201, a login with the same name and password whose commit
    -- works is answered by 200, and from then on until the access token of its answer expires,
    -- /auth/me answers with the id, the name and the email address of the registration, its time,
    -- and the role user.
    pub me-post_register :
        (post_register env body st).0.0 ≡ 201
        → env'.committed ≡ committed
        → env'.now ≤ now
        → now < env'.now + env'.access_expire_minutes * 60
        → let entry : LoginRequest = record {
          username = body.username;
          password = body.password;
        } in
          let entered = post_login env' entry (post_register env body st).1 in
          (t : TokenResponse K) × (entered.0 ≡ (200, some t))
          × (me K now (some t.access_token) entered.1
              ≡ ok (record {
                id = env.user_id;
                username = body.username;
                email = body.email;
                role = user;
                created_at = env.now;
              }))
    unfolding post_login login me
    me-post_register done works later young =
        let entry : LoginRequest = record { username = body.username; password = body.password } in
        let st1 = (post_register env body st).1 in
        let (hash, answer, same, users) = post_register-users env body st done in
        let entered : (login K env' entry st1).0
            ≡ ok (
              env.user_id,
              K.encode (access_claims env' env.user_id),
              K.encode (refresh_claims env' env.user_id),
            ) =
          ap (λ s. (login K env' entry s).0) same
          ∙ login-register K env env' body st _ answer works in
        (
          record {
            access_token = K.encode (access_claims env' env.user_id);
            refresh_token = K.encode (refresh_claims env' env.user_id);
          },
          ground (arith, entered),
          ground
              (arith, same, users, entered, K.decode-encode now (access_claims env' env.user_id)),
        )
