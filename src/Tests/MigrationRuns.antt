-- ===== src/Tests/MigrationRuns.antt =====
-- The migrations on databases that are their own schemas, and two replicas of the API.
use mathlib.Core.Option
use saga_orchestrator_patter.Base.{
  ℕ, ◌≡◌, refl, String, false, true, Option, some, [], ◌∷◌, ◌++◌, arith, codes, List,
}
use saga_orchestrator_patter.Migrations.{Schema, Database, Table, apply}
use saga_orchestrator_patter.Migrations.Environment.{
  head, revisions_from, upgrade_ops, downgrade_ops, do_run_migrations,
}
use saga_orchestrator_patter.Settings.{Build, Settings}
use saga_orchestrator_patter.Settings.Url.{interpolate}
use saga_orchestrator_patter.Migrations.Command.{
  Options, text, get_section, get_main_option, section_url, configured, migrations_url,
}
use saga_orchestrator_patter.Engine.{engine}
use saga_orchestrator_patter.Migrations.Metadata.{metadata, get_table, Matches}
use saga_orchestrator_patter.Migrations.Clean.{IsClean, latest_types}
use saga_orchestrator_patter.Migrations.Upgrade.{AcceptsEnums, do_run_migrations_upgrade}
use saga_orchestrator_patter.Migrations.Downgrade.{do_run_migrations_roundtrip}

map_self : (s : Option Schema) → Option.map (λ x. x) s ≡ s
map_self s = ground arith

abbrev plain : Database
plain = record {
  State = Schema;
  schema = λ s. s;
  execute = apply;
  execute-apply = λ op s. map_self (apply op s);
}

-- alembic's own table is there already.
abbrev version_table : Table
version_table = record {
  name = "alembic_version";
  columns = [];
  primary_key = "version_num";
  unique = [];
  foreign_keys = [];
  is_empty = true;
  nulls = [];
}

abbrev fresh : Schema
fresh = record { tables = version_table ∷ []; types = [] }

fresh-IsClean : IsClean fresh
fresh-IsClean = record {
  goods = refl;
  users = refl;
  orders = refl;
  tokens = refl;
  details = refl;
  saga_logs = refl;
  privileges = refl;
  step_type = refl;
  global_status = refl;
  payment = refl;
  references = λ name absent. refl;
}

do_run_migrations_upgrade_example :
    let r = do_run_migrations plain (upgrade_ops (revisions_from 5 (some head))) fresh in
    (r.0 ≡ true)
    × ((name : String)
        → Matches
            (get_table name metadata)
            (get_table name r.1.tables)
            (get_table name fresh.tables))
    × AcceptsEnums r.1.types
do_run_migrations_upgrade_example = do_run_migrations_upgrade plain fresh fresh-IsClean

do_run_migrations_roundtrip_example :
    let up = upgrade_ops (revisions_from 5 (some head)) in
    let down = downgrade_ops (revisions_from 5 (some head)) in
    let r = do_run_migrations plain down (do_run_migrations plain up fresh).1 in
    (r.0 ≡ true)
    × (r.1 ≡ record fresh { types = latest_types ++ [] })
    × (do_run_migrations plain up r.1 ≡ (false, r.1))
do_run_migrations_roundtrip_example = do_run_migrations_roundtrip plain fresh fresh-IsClean

-- A URL with a percent sign in the password, and an alembic.ini with the one reference that the
-- repository's has.
abbrev percent_url : Build
percent_url scheme user pass host port path = "postgresql+asyncpg://u:50%@db/saga"

abbrev ini : Options
ini = ("script_location", codes "%(here)s/src/db/migrations") ∷ []

abbrev here : List ℕ → Option (List ℕ)
here _ = some (codes "/app")

abbrev settings : Settings
settings = record {
  debug_mode = false;
  db = record { user = "u"; pass = "50%"; host = "db"; port = 5432; name = "saga" };
  redis = record { r_host = "redis"; r_port = 6379 };
  auth = record {
    secret_key = "key";
    algorithm = "HS256";
    access_token_expire_minutes = 15;
    refresh_token_expire_days = 7;
  };
  slack = record { webhook_url = "" };
  external = record { billing_url = ""; inventory_url = ""; logistics_url = "" };
}

migrations_url_example :
    (get_main_option here "sqlalchemy.url" (configured percent_url settings ini)
      ≡ text (codes (engine percent_url settings).url))
    × (section_url here (configured percent_url settings ini)
        ≡ text (codes (engine percent_url settings).url))
unfolding get_section interpolate
migrations_url_example =
    migrations_url here percent_url settings ini (("script_location", codes "/app") ∷ []) refl
