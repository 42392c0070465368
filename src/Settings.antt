-- ===== src/Settings.antt =====
-- src/core/settings.py, and the way of the database's URL through src/db/migrations/env.py. A setting
-- that the environment does not give has its default; one without a default is required.
pub mod Url
use mathlib.Core.Option
use saga_orchestrator_patter.Base.{
  ℕ, ◌<◌, ◌*◌, ◌≡◌, String, Bool, true, false, ◌&&◌, ◌||◌, Option, none, some, arith, if◌then◌else◌,
}

pub record DatabaseSettings : Type 0 where
  pub user : String
  pub pass : String
  pub host : String
  pub port : ℕ
  pub name : String

pub record RedisSettings : Type 0 where
  pub r_host : String
  pub r_port : ℕ

pub record AuthSettings : Type 0 where
  pub secret_key : String
  pub algorithm : String
  pub access_token_expire_minutes : ℕ
  pub refresh_token_expire_days : ℕ

pub record SlackSettings : Type 0 where
  pub webhook_url : String

pub record ExternalServicesSettings : Type 0 where
  pub billing_url : String
  pub inventory_url : String
  pub logistics_url : String

pub record Settings : Type 0 where
  pub debug_mode : Bool
  pub db : DatabaseSettings
  pub redis : RedisSettings
  pub auth : AuthSettings
  pub slack : SlackSettings
  pub external : ExternalServicesSettings

-- The fields that the environment gives.
pub record Given : Type 0 where
  pub debug_mode : Option Bool
  pub db_user : Option String
  pub db_pass : Option String
  pub db_host : Option String
  pub db_port : Option ℕ
  pub db_name : Option String
  pub r_host : Option String
  pub r_port : Option ℕ
  pub secret_key : Option String
  pub algorithm : Option String
  pub access_token_expire_minutes : Option ℕ
  pub refresh_token_expire_days : Option ℕ
  pub webhook_url : Option String
  pub billing_url : Option String
  pub inventory_url : Option String
  pub logistics_url : Option String

abbrev or_default {ℓ} : {A : Type ℓ} → Option A → A → A
or_default none a = a
or_default (some b) a = b

abbrev pub database_settings : Given → Option DatabaseSettings
database_settings g =
    Option.map
      (λ pass. record {
        user = or_default g.db_user "postgres";
        pass = pass;
        host = or_default g.db_host "localhost";
        port = or_default g.db_port 5432;
        name = or_default g.db_name "saga";
      })
      g.db_pass

abbrev is_given {ℓ} : {A : Type ℓ} → Option A → Bool
is_given none = false
is_given (some a) = true

-- `redis` has no default itself, so one of its fields has to be given; likewise `slack`.
abbrev pub redis_settings : Given → Option RedisSettings
redis_settings g =
    if is_given g.r_host || is_given g.r_port
    then some
        (record { r_host = or_default g.r_host "localhost"; r_port = or_default g.r_port 6379 })
    else none

abbrev pub auth_settings : Given → Option AuthSettings
auth_settings g =
    Option.map
      (λ key. record {
        secret_key = key;
        algorithm = or_default g.algorithm "HS256";
        access_token_expire_minutes = or_default g.access_token_expire_minutes 15;
        refresh_token_expire_days = or_default g.refresh_token_expire_days 7;
      })
      g.secret_key

abbrev pub slack_settings : Given → Option SlackSettings
slack_settings g = Option.map (λ url. record { webhook_url = url }) g.webhook_url

abbrev pub external_settings : Given → ExternalServicesSettings
external_settings g = record {
  billing_url = or_default g.billing_url "http://mock-env:8080/billing";
  inventory_url = or_default g.inventory_url "http://mock-env:8080/inventory";
  logistics_url = or_default g.logistics_url "http://mock-env:8080/logistics";
}

abbrev all_settings :
    Given
    → Option DatabaseSettings
    → Option RedisSettings
    → Option AuthSettings
    → Option SlackSettings
    → Option Settings
all_settings g (some db) (some redis) (some auth) (some slack) = some (record {
  debug_mode = or_default g.debug_mode false;
  db = db;
  redis = redis;
  auth = auth;
  slack = slack;
  external = external_settings g;
})
all_settings g _ _ _ _ = none

-- `Settings()`; a ValidationError is `none`.
unfoldable pub load_settings : Given → Option Settings
load_settings g =
    all_settings g (database_settings g) (redis_settings g) (auth_settings g) (slack_settings g)

-- `PostgresDsn.build(…)` of pydantic, by its arguments: scheme, username, password, host, port, path.
abbrev pub Build : Type 0
Build = String → String → String → String → ℕ → String → String

-- `DATABASE_URL`
abbrev pub database_url : Build → DatabaseSettings → String
database_url build db = build "postgresql+asyncpg" db.user db.pass db.host db.port db.name

-- `arq_settings`: the host and the port for arq.
abbrev pub arq_settings : RedisSettings → String × ℕ
arq_settings redis = (redis.r_host, redis.r_port)

-- The four things that a deployment has to give, and no others.
load_settings-is_given :
    (g : Given)
    → is_given (load_settings g) ≡ (
        is_given g.db_pass
        && (is_given g.r_host || is_given g.r_port)
        && is_given g.secret_key
        && is_given g.webhook_url)
unfolding load_settings
load_settings-is_given g = ground arith

-- With the defaults an access token expires before the refresh token that comes with it.
load_settings-expiry :
    (g : Given) (s : Settings)
    → load_settings g ≡ some s
    → g.access_token_expire_minutes ≡ none
    → g.refresh_token_expire_days ≡ none
    → s.auth.access_token_expire_minutes * 60 < s.auth.refresh_token_expire_days * 86400
unfolding load_settings
load_settings-expiry g s loaded minutes days = ground arith
