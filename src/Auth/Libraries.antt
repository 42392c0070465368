-- ===== src/Auth/Libraries.antt =====
-- src/utils/security.py and src/utils/jwt.py on the libraries below them: bcrypt, PyJWT and Python's
-- conversions are parameters with their documented laws, and the code on top of them is a `Crypto`.
use mathlib.Core.Option
use saga_orchestrator_patter.Base.{
  ℕ, ◌≡◌, refl, String, Bool, true, ◌&&◌, Option, none, some, List, [], ◌∷◌, arith, ltb, leb,
  str_eq, str_eq_iff, ap, false, if◌then◌else◌, Option-cases, Bool-cases, inl, inr,
}
use saga_orchestrator_patter.Settings.{AuthSettings}
use saga_orchestrator_patter.Auth.{
  Crypto, Claims, Subject, no_subject, bad_subject, subject, TokenType, access, refresh,
}

-- bcrypt, with `str.encode` and `bytes.decode`. An exception is `none`: bcrypt refuses a long password,
-- and bytes need not be UTF-8.
pub record Bcrypt : Type 1 where
  pub Bytes : Type 0
  pub encode : String → Bytes
  pub decode : Bytes → Option String
  pub gensalt : ℕ → Bytes
  pub hashpw : Bytes → Bytes → Option Bytes
  pub checkpw : Bytes → Bytes → Option Bool
  pub encode-decode : (b : Bytes) (s : String) → decode b ≡ some s → encode s ≡ b
  pub checkpw-hashpw : (p salt h : Bytes) → hashpw p salt ≡ some h → checkpw p h ≡ some true

-- The payload of a token. The id of a token is a number here, not its 64 hexadecimal digits.
pub record JwtPayload : Type 0 where
  pub sub : Option String
  pub jti : ℕ
  pub type : Option String
  pub iat : ℕ
  pub exp : ℕ

-- PyJWT. A token decodes under the key and the algorithm that it was made with, from its time of
-- issue until it expires.
pub record Pyjwt : Type 1 where
  pub Token : Type 0
  pub encode : JwtPayload → String → String → Token
  pub decode : ℕ → Token → String → List String → Option JwtPayload
  pub decode-encode :
      (now : ℕ) (p : JwtPayload) (key algorithm : String)
      → decode now (encode p key algorithm) key (algorithm ∷ [])
        ≡ (if leb p.iat now && ltb now p.exp then some p else none)

-- `str` and `int` of an id; `int` refuses a text without a digit.
pub record Numerals : Type 0 where
  pub str : ℕ → String
  pub int : String → Option ℕ
  pub int-str : (n : ℕ) → int (str n) ≡ some n
  pub int-empty : int "" ≡ none
  pub int-x : int "x" ≡ none

module _ (B : Bcrypt) where
  unfoldable pub hash_password : ℕ → String → Option String
  hash_password salt plain = elim (B.hashpw (B.encode plain) (B.gensalt salt)) [
    | none ↦ none
    | some h ↦ B.decode h
  ]

  unfoldable pub verify_password : String → String → Option Bool
  verify_password plain hashed = B.checkpw (B.encode plain) (B.encode hashed)

  pub verify_password-hash_password :
      (salt : ℕ) (plain hashed : String)
      → hash_password salt plain ≡ some hashed
      → verify_password plain hashed ≡ some true
  unfolding hash_password verify_password
  verify_password-hash_password salt plain hashed done =
      elim (Option-cases (B.hashpw (B.encode plain) (B.gensalt salt))) [
        | inl refused ↦ absurd (ground arith)
        | inr (h, made) ↦
            let text : B.decode h ≡ some hashed = ground arith in
            rw (verify_password, B.encode-decode h hashed text)
              (B.checkpw-hashpw (B.encode plain) (B.gensalt salt) h made)
      ]

-- The members of the StrEnum `TokenType`, and a comparison with them. A type that is neither of the
-- two compares as no type does.
abbrev type_text : TokenType → String
type_text access = "access"
type_text refresh = "refresh"

abbrev type_of : Option String → Option TokenType
type_of none = none
type_of (some t) =
    if str_eq t "access" then some access else if str_eq t "refresh" then some refresh else none

type_of-type_text : (t : Option TokenType) → type_of (Option.map type_text t) ≡ t
type_of-type_text none = refl
type_of-type_text (some access) = refl
type_of-type_text (some refresh) = refl

module _ (N : Numerals) where
  -- `int(sub)`, where a missing or an empty claim is told apart from one that is no number.
  abbrev read_id : Option ℕ → Subject
  read_id none = bad_subject
  read_id (some n) = subject n

  abbrev int_of : Option String → Subject
  int_of none = no_subject
  int_of (some s) = if str_eq s "" then no_subject else read_id (N.int s)

  -- One text for each subject.
  abbrev text_of : Subject → Option String
  text_of no_subject = none
  text_of bad_subject = some "x"
  text_of (subject n) = some (N.str n)

  str-nonempty : (n : ℕ) → str_eq (N.str n) "" ≡ false
  str-nonempty n = elim (Bool-cases (str_eq (N.str n) "")) [
    | inl empty ↦
        absurd
          (ground (arith, N.int-str n, N.int-empty, ap N.int ((str_eq_iff (N.str n) "").0 empty)))
    | inr filled ↦ filled
  ]

  int_of-text_of : (s : Subject) → int_of (text_of s) ≡ s
  int_of-text_of no_subject = refl
  int_of-text_of bad_subject = rw (N.int-x) refl
  int_of-text_of (subject n) = rw (str-nonempty n, N.int-str n) refl

  -- The payload that `create_access_token` and `create_refresh_token` write.
  abbrev payload_of : Claims → JwtPayload
  payload_of c = record {
    sub = text_of c.sub;
    jti = c.jti;
    type = Option.map type_text c.type;
    iat = c.iat;
    exp = c.exp;
  }

  abbrev claims_of : JwtPayload → Claims
  claims_of p = record {
    sub = int_of p.sub;
    jti = p.jti;
    type = type_of p.type;
    iat = p.iat;
    exp = p.exp;
  }

  claims_of-payload_of : (c : Claims) → claims_of (payload_of c) ≡ c
  claims_of-payload_of c = ground (arith, int_of-text_of c.sub, type_of-type_text c.type)

-- The code with one key and one algorithm for both directions.
module _ (J : Pyjwt) (N : Numerals) (s : AuthSettings) where
  unfoldable pub make_token : Claims → J.Token
  make_token c = J.encode (payload_of N c) s.secret_key s.algorithm

  unfoldable pub decode_token : ℕ → J.Token → Option Claims
  decode_token now token =
      Option.map (claims_of N) (J.decode now token s.secret_key (s.algorithm ∷ []))

  pub decode_token-make_token :
      (now : ℕ) (c : Claims)
      → decode_token now (make_token c) ≡ (if leb c.iat now && ltb now c.exp then some c else none)
  unfolding make_token decode_token
  decode_token-make_token now c = ground (
    arith,
    J.decode-encode now (payload_of N c) s.secret_key s.algorithm,
    claims_of-payload_of N c,
  )

-- What the services rely on, from the libraries and the code on top of them.
abbrev pub crypto_of : Bcrypt → Pyjwt → Numerals → AuthSettings → Crypto
crypto_of B J N s = record {
  Token = J.Token;
  encode = make_token J N s;
  decode = decode_token J N s;
  hash_password = hash_password B;
  verify_password = verify_password B;
  decode-encode = decode_token-make_token J N s;
  verify-hash = verify_password-hash_password B;
}
