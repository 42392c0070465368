-- ===== src/Engine.antt =====
-- src/core/database.py: the engine of all processes, from the settings. Its session factory and what
-- a session does are in the components that use them.
use saga_orchestrator_patter.Base.{ℕ, String, Bool, true}
use saga_orchestrator_patter.Settings.{Build, Settings, database_url}

-- The arguments of `create_async_engine`; the times are in seconds.
pub record Engine : Type 0 where
  pub url : String
  pub echo : Bool
  pub pool_size : ℕ
  pub max_overflow : ℕ
  pub pool_timeout : ℕ
  pub pool_recycle : ℕ
  pub pool_pre_ping : Bool

abbrev pub engine : Build → Settings → Engine
engine build s = record {
  url = database_url build s.db;
  echo = s.debug_mode;
  pool_size = 20;
  max_overflow = 10;
  pool_timeout = 30;
  pool_recycle = 1800;
  pool_pre_ping = true;
}
