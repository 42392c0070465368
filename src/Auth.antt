-- ===== src/Auth.antt =====
-- Accounts and tokens: src/services/user.py, src/utils/jwt.py, and the repositories of users and of
-- refresh tokens below them. A token's expiry is in seconds.
pub mod Service
pub mod Bearer
pub mod Laws
pub mod Access
pub mod Endpoints
pub mod Libraries
use saga_orchestrator_patter.Base.{
  ℕ, ◌+◌, ◌*◌, ◌≡◌, String, Bool, true, false, not, ◌&&◌, ◌||◌, Option, none, some, List, [], ◌∷◌,
  ltb, leb, ◌==◌, str_eq, if◌then◌else◌,
}
use saga_orchestrator_patter.Models.Enums.{UserPrivileges, admin}
use saga_orchestrator_patter.World.Effects.{Commit}

pub data TokenType : Type 0 where
  access refresh : TokenType

-- `payload.get("type") == TokenType.REFRESH`, and `== TokenType.ACCESS`
abbrev pub is_refresh : Option TokenType → Bool
is_refresh (some refresh) = true
is_refresh _ = false

abbrev pub is_access : Option TokenType → Bool
is_access (some access) = true
is_access _ = false

-- The claim `sub`: missing or empty, a text that `int` refuses, or the id of a user.
pub data Subject : Type 0 where
  no_subject bad_subject : Subject
  subject : ℕ → Subject

-- The payload: a token that was not made here may lack the claims `sub` and `type`.
pub record Claims : Type 0 where
  pub sub : Subject
  pub jti : ℕ
  pub type : Option TokenType
  pub iat : ℕ
  pub exp : ℕ

-- PyJWT with the key of the settings, and bcrypt with a random salt. A token decodes to the claims
-- that it was made from, from its time of issue until it expires, and to an error before and after; a password is verified by
-- its hash. bcrypt refuses a password of more than 72 bytes, by an exception.
pub record Crypto : Type 1 where
  pub Token : Type 0
  pub encode : Claims → Token
  pub decode : ℕ → Token → Option Claims
  pub hash_password : ℕ → String → Option String
  pub verify_password : String → String → Option Bool
  pub decode-encode :
      (now : ℕ) (c : Claims)
      → decode now (encode c) ≡ (if leb c.iat now && ltb now c.exp then some c else none)
  pub verify-hash :
      (salt : ℕ) (p h : String) → hash_password salt p ≡ some h → verify_password p h ≡ some true

pub record User : Type 0 where
  pub id : ℕ
  pub username : String
  pub email : Option String
  pub password_hash : String
  pub slack_account : Option String
  pub role : UserPrivileges
  pub created_at : ℕ

pub record RefreshToken : Type 0 where
  pub id : ℕ
  pub user_id : ℕ
  pub jti : ℕ
  pub expires_at : ℕ
  pub created_at : ℕ
  pub is_revoked : Bool

pub record Accounts : Type 0 where
  pub users : List User
  pub tokens : List RefreshToken

pub record RegisterRequest : Type 0 where
  pub username : String
  pub password : String
  pub email : Option String

pub record LoginRequest : Type 0 where
  pub username : String
  pub password : String

-- The columns `username`, `email` and `jti` are unique, so the first row is the only one.
abbrev pub get_by_username : String → List User → Option User
get_by_username name [] = none
get_by_username name (u ∷ us) = if str_eq u.username name then some u else get_by_username name us

abbrev pub has_email : String → Option String → Bool
has_email e none = false
has_email e (some f) = str_eq f e

abbrev pub get_by_email : String → List User → Option User
get_by_email e [] = none
get_by_email e (u ∷ us) = if has_email e u.email then some u else get_by_email e us

abbrev pub get_by_jti : ℕ → List RefreshToken → Option RefreshToken
get_by_jti jti [] = none
get_by_jti jti (t ∷ ts) = if t.jti == jti then some t else get_by_jti jti ts

-- `UPDATE refresh_tokens SET is_revoked = true WHERE jti = … AND NOT is_revoked`
abbrev pub revoke_by_jti : ℕ → List RefreshToken → List RefreshToken
revoke_by_jti jti [] = []
revoke_by_jti jti (t ∷ ts) =
    (if t.jti == jti then record t { is_revoked = true } else t) ∷ revoke_by_jti jti ts

-- The same for all tokens of a user. Nothing calls it.
abbrev pub revoke_all_for_user : ℕ → List RefreshToken → List RefreshToken
revoke_all_for_user id [] = []
revoke_all_for_user id (t ∷ ts) =
    (if t.user_id == id then record t { is_revoked = true } else t) ∷ revoke_all_for_user id ts

-- The settings, and the replies to one request: the time, the ids of the two new tokens, the salt,
-- the keys of the new rows, another registration that takes the name between the check and the
-- INSERT, what other requests commit between the check of a refresh token and its revocation, and
-- the commit.
pub record AuthEnv : Type 0 where
  pub now : ℕ
  pub access_expire_minutes : ℕ
  pub refresh_expire_days : ℕ
  pub access_jti : ℕ
  pub refresh_jti : ℕ
  pub salt : ℕ
  pub user_id : ℕ
  pub token_id : ℕ
  pub name_raced : Bool
  pub meanwhile : Accounts → Accounts
  pub committed : Commit

-- The value that a request returns, or the status code of its HTTPException.
pub data Reply (A : Type 0) : Type 0 where
  ok : A → Reply A
  error : ℕ → Reply A

abbrev pub access_claims : AuthEnv → ℕ → Claims
access_claims env id = record {
  sub = subject id;
  jti = env.access_jti;
  type = some access;
  iat = env.now;
  exp = env.now + env.access_expire_minutes * 60;
}

abbrev pub refresh_claims : AuthEnv → ℕ → Claims
refresh_claims env id = record {
  sub = subject id;
  jti = env.refresh_jti;
  type = some refresh;
  iat = env.now;
  exp = env.now + env.refresh_expire_days * 86400;
}

-- The row of a new refresh token.
abbrev pub create_token : AuthEnv → ℕ → Accounts → Accounts
create_token env id st = record st {
  tokens =
      record {
        id = env.token_id;
        user_id = id;
        jti = env.refresh_jti;
        expires_at = env.now + env.refresh_expire_days * 86400;
        created_at = env.now;
        is_revoked = false;
      }
      ∷ st.tokens;
}

abbrev pub get_by_id : ℕ → List User → Option User
get_by_id id [] = none
get_by_id id (u ∷ us) = if u.id == id then some u else get_by_id id us

abbrev pub is_admin : UserPrivileges → Bool
is_admin admin = true
is_admin _ = false

-- `select(User).where(User.id == user_id, User.role == UserPrivileges.ADMIN)`
abbrev pub check_id_admin_role : ℕ → List User → Bool
check_id_admin_role id [] = false
check_id_admin_role id (u ∷ us) = (u.id == id && is_admin u.role) || check_id_admin_role id us
