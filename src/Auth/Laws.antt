-- ===== src/Auth/Laws.antt =====
-- What a client of the accounts may rely on.
use saga_orchestrator_patter.Base.{
  Option-cases, inl, inr, ℕ, ◌≤◌, ◌<◌, ◌+◌, ◌*◌, ◌≡◌, ◌≢◌, true, false, some, List, [], ◌∷◌, refl,
  arith, str_eq_refl,
}
use saga_orchestrator_patter.World.Effects.{committed}
use saga_orchestrator_patter.Auth.{
  subject, get_by_jti, Crypto, Claims, refresh, AuthEnv, Accounts, RefreshToken, RegisterRequest,
  LoginRequest, ok, error, refresh_claims, access_claims, create_token, revoke_by_jti,
  revoke_all_for_user,
}
use saga_orchestrator_patter.Auth.Service.{register, login, logout, refresh_tokens, is_stored}

module _ (K : Crypto) where
  -- After a registration that succeeded, a login with the same name and password succeeds, at any
  -- time that its commit works, with the tokens of the user's id that the registration has
  -- returned.
  pub login-register :
      (env env' : AuthEnv) (body : RegisterRequest) (st : Accounts) (r : ℕ × K.Token × K.Token)
      → (register K env body st).0 ≡ ok r
      → env'.committed ≡ committed
      → let entry : LoginRequest = record { username = body.username; password = body.password } in
        (login K env' entry (register K env body st).1).0
        ≡ ok (r.0, K.encode (access_claims env' r.0), K.encode (refresh_claims env' r.0))
  unfolding register login
  login-register env env' body st r done works =
      elim (Option-cases (K.hash_password env.salt body.password)) [
        | inl refused ↦ absurd (ground arith)
        | inr (hash, hashed) ↦
            ground
              (arith, str_eq_refl body.username, K.verify-hash env.salt body.password hash hashed)
      ]

  is_stored-revoke :
      (jti : ℕ) (ts : List RefreshToken) → is_stored K jti (revoke_by_jti jti ts) ≡ false
  unfolding is_stored
  is_stored-revoke jti [] = refl
  is_stored-revoke jti (t ∷ ts) = ground (arith, is_stored-revoke jti ts)

  -- No token of the user is left that a refresh accepts.
  is_stored-revoke_all_for_user :
      (jti id : ℕ) (ts : List RefreshToken) (t : RefreshToken)
      → get_by_jti jti ts ≡ some t
      → t.user_id ≡ id
      → is_stored K jti (revoke_all_for_user id ts) ≡ false
  unfolding is_stored
  is_stored-revoke_all_for_user jti id [] t found own = absurd (ground arith)
  is_stored-revoke_all_for_user jti id (s ∷ ts) t found own =
      ground (arith, is_stored-revoke_all_for_user jti id ts t)

  -- A token of which the row is revoked is refused at any time.
  refused :
      (env : AuthEnv) (c : Claims) (st : Accounts)
      → is_stored K c.jti st.tokens ≡ false
      → refresh_tokens K env (K.encode c) st ≡ (error 401, st)
  unfolding refresh_tokens
  refused env c st gone = ground (arith, K.decode-encode env.now c, gone)

  accepted :
      (env : AuthEnv) (c : Claims) (id : ℕ) (st : Accounts)
      → c.type ≡ some refresh
      → c.sub ≡ subject id
      → c.iat ≤ env.now
      → env.now < c.exp
      → env.committed ≡ committed
      → is_stored K c.jti st.tokens ≡ true
      → (refresh_tokens K env (K.encode c) st).0
        ≡ ok (K.encode (access_claims env id), K.encode (refresh_claims env id))
  unfolding refresh_tokens
  accepted env c id st t u made young works here = ground (arith, K.decode-encode env.now c, here)

  module _ (env env' : AuthEnv) (c : Claims) (id : ℕ) (st : Accounts) (r : K.Token × K.Token) where
    -- The row of the old token is revoked, and that of the new one is not.
    refresh-rows :
        c.sub ≡ subject id
        → (refresh_tokens K env (K.encode c) st).0 ≡ ok r
        → (refresh_tokens K env (K.encode c) st).1
          ≡ create_token env id
              (record (env.meanwhile st) { tokens = revoke_by_jti c.jti (env.meanwhile st).tokens })
    unfolding refresh_tokens
    refresh-rows u done = ground (arith, K.decode-encode env.now c)

    -- After a refresh token has been exchanged, with a new id for the new one, the old one is
    -- refused with 401 at any time and changes nothing, and the new one is accepted, from its
    -- issue until it expires, if the commit works.
    pub refresh_tokens_rotate :
        c.sub ≡ subject id
        → env.refresh_jti ≢ c.jti
        → (refresh_tokens K env (K.encode c) st).0 ≡ ok r
        → env.now ≤ env'.now
        → env'.now < env.now + env.refresh_expire_days * 86400
        → env'.committed ≡ committed
        → let st' = (refresh_tokens K env (K.encode c) st).1 in
          (refresh_tokens K env' (K.encode c) st' ≡ (error 401, st'))
          × ((refresh_tokens K env' (K.encode (refresh_claims env id)) st').0
              ≡ ok (K.encode (access_claims env' id), K.encode (refresh_claims env' id)))
    unfolding is_stored
    refresh_tokens_rotate u fresh done later young works =
        let ts = (env.meanwhile st).tokens in
        let rows = refresh-rows u done in
        (
          refused env' c (refresh_tokens K env (K.encode c) st).1
              (ground (arith, rows, is_stored-revoke c.jti ts)),
          accepted env' (refresh_claims env id) id (refresh_tokens K env (K.encode c) st).1 refl
              refl later young works (ground (arith, rows)),
        )

  -- After a logout that succeeded with a token, a refresh with that token is refused with 401 at
  -- any time and changes nothing.
  refresh_tokens-logout :
      (env env' : AuthEnv) (c : Claims) (st : Accounts)
      → (logout K env (K.encode c) st).0 ≡ ok tt
      → let st' = (logout K env (K.encode c) st).1 in
        refresh_tokens K env' (K.encode c) st' ≡ (error 401, st')
  unfolding logout
  refresh_tokens-logout env env' c st done =
      refused env' c (logout K env (K.encode c) st).1
        (ground (arith, K.decode-encode env.now c, is_stored-revoke c.jti st.tokens))

  -- If a second request with the same valid refresh token, at any time between its issue and its
  -- expiry, runs between the check of the first and its revocation, the commits work and the ids
  -- of the new tokens differ, then both requests are answered with new tokens and both new refresh
  -- tokens are usable.
  pub refresh_tokens_race :
      (env env' : AuthEnv) (c : Claims) (id : ℕ) (st : Accounts)
      → c.type ≡ some refresh
      → c.sub ≡ subject id
      → c.iat ≤ env.now
      → c.iat ≤ env'.now
      → env.now < c.exp
      → env'.now < c.exp
      → env.committed ≡ committed
      → env'.committed ≡ committed
      → is_stored K c.jti st.tokens ≡ true
      → env'.refresh_jti ≢ c.jti
      → env.refresh_jti ≢ env'.refresh_jti
      → env.meanwhile ≡ (λ s. (refresh_tokens K env' (K.encode c) s).1)
      → env'.meanwhile ≡ (λ s. s)
      → ((refresh_tokens K env' (K.encode c) st).0
          ≡ ok (K.encode (access_claims env' id), K.encode (refresh_claims env' id)))
        × ((refresh_tokens K env (K.encode c) st).0
            ≡ ok (K.encode (access_claims env id), K.encode (refresh_claims env id)))
        × (is_stored K env.refresh_jti (refresh_tokens K env (K.encode c) st).1.tokens ≡ true)
        × (is_stored K env'.refresh_jti (refresh_tokens K env (K.encode c) st).1.tokens ≡ true)
  unfolding refresh_tokens is_stored
  refresh_tokens_race env env' c id st t u made made' young young' works works' here fresh differ
        within alone =
      ground (arith, K.decode-encode env.now c, K.decode-encode env'.now c, here, within, alone)
