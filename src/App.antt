-- ===== src/App.antt =====
-- src/main.py: the version and the lifespan of the API, which seeds the goods at its start.
use mathlib.Core.Option
use saga_orchestrator_patter.Base.{
  ◌≡◌, String, Bool, true, false, Option, none, some, List, [], ◌∷◌, ◌++◌, arith, if◌then◌else◌,
}
use saga_orchestrator_patter.World.Effects.{Commit}
use saga_orchestrator_patter.Goods.{Good, SeedResult, failed, seed_goods, test_goods}

-- What reading pyproject.toml gives: no such file, a file that does not parse, or the version, if it
-- has the key.
pub data Project : Type 0 where
  missing malformed : Project
  parsed : Option String → Project

-- `get_version`; an exception that it does not catch is `none`.
abbrev pub get_version : Project → Option String
get_version missing = some "0.0.0-unknown"
get_version malformed = none
get_version (parsed none) = some "0.0.0-unknown"
get_version (parsed (some version)) = some version

-- A method and a path.
abbrev pub Route : Type 0
Route = String × String

abbrev order_router : List Route
order_router = ("POST", "/orders/") ∷ []

abbrev admin_router : List Route
admin_router = ("PATCH", "/admin/orders/{order_id}/force-cancel") ∷ []

abbrev user_router : List Route
user_router =
    ("POST", "/auth/register")
    ∷ ("POST", "/auth/login")
    ∷ ("POST", "/auth/refresh")
    ∷ ("POST", "/auth/logout")
    ∷ ("GET", "/auth/me")
    ∷ []

abbrev include_routers : List Route → List Route
include_routers routes = routes ++ (order_router ++ (admin_router ++ user_router))

-- The application without the texts of its documentation; the instrumentator exposes /metrics.
pub record App : Type 0 where
  pub version : String
  pub debug : Bool
  pub root_path : String
  pub routes : List Route

-- `none` if the version raises, which ends the import.
abbrev pub create_app : Project → Bool → Option App
create_app project debug_mode =
    Option.map
      (λ version. record {
        version = version;
        debug = debug_mode;
        root_path = "/api";
        routes = include_routers (("GET", "/metrics") ∷ ("GET", "/health") ∷ []);
      })
      (get_version project)

-- The body of the answer of GET /health.
pub record Health : Type 0 where
  pub status : String
  pub service : String
  pub version : String

abbrev pub health_check : App → Health
health_check app = record { status = "ok"; service = "saga-api"; version = app.version }

-- One replica of the API: the replies at its start.
pub record LifespanEnv : Type 0 where
  pub pool_created : Bool
  pub committed : Commit
  pub meanwhile : List Good → List Good

-- It serves requests, or its start has raised.
pub data Lifespan : Type 0 where
  running crashed : Lifespan

-- A replica with its pool of connections to Redis.
pub record Replica : Type 0 where
  pub lifespan : Lifespan
  pub redis_pool : Bool

abbrev after_seed : SeedResult → Replica
after_seed failed = record { lifespan = crashed; redis_pool = true }
after_seed _ = record { lifespan = running; redis_pool = true }

unfoldable pub start : LifespanEnv → List Good → Replica × List Good
start env goods =
    let seed = seed_goods env.committed env.meanwhile goods in
    if env.pool_created
    then (after_seed seed.0, seed.1)
    else (record { lifespan = crashed; redis_pool = false }, goods)

-- `await app.state.redis_pool.close()`, behind the `yield`
unfoldable pub stop : Replica → Replica
stop r = elim r.lifespan [ running ↦ record r { redis_pool = false } | crashed ↦ r ]

-- If two replicas of the API start on an empty catalogue, and all of the second's start falls
-- between the SELECT and the INSERT of the first's seeding, then the second runs, the first
-- crashes at its start with its pool of connections left open, and the catalogue has the test
-- goods.
start_race :
    (env env' : LifespanEnv)
    → env.pool_created ≡ true
    → env'.pool_created ≡ true
    → env'.committed ≡ Commit.committed
    → env'.meanwhile ≡ (λ goods. goods)
    → env.meanwhile ≡ (λ goods. (start env' goods).1)
    → ((start env' []).0.lifespan ≡ running)
      × ((start env []).0.lifespan ≡ crashed)
      × ((stop (start env []).0).redis_pool ≡ true)
      × ((start env []).1 ≡ test_goods)
unfolding start stop seed_goods
start_race env env' pool pool' works alone within = ground (arith, within, alone)
