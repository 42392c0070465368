-- ===== src/Worker/Lifecycle.antt =====
-- The start and the end of a worker and of the scheduler: src/workers/lifecycle.py, and `startup` of
-- src/workers/main_worker.py and src/workers/scheduler.py.
use saga_orchestrator_patter.Base.{ℕ, ◌≡◌, Bool, true, Option, some, arith, if◌then◌else◌}
use saga_orchestrator_patter.World.Effects.{Outcome, returned, raised}

-- `ctx["http_client"]`
pub data Client : Type 0 where
  missing is_open is_closed : Client

-- The context of the process, whether its engine has been disposed of, and the port on which it shows
-- its metrics.
pub record Process : Type 0 where
  pub http_client : Client
  pub session_factory : Bool
  pub is_disposed : Bool
  pub metrics_port : Option ℕ

-- A variable of the environment that should hold a port.
pub data PortVariable : Type 0 where
  unset malformed : PortVariable
  port : ℕ → PortVariable

abbrev pub base_startup : Process → Process
base_startup p = record p { http_client = is_open; session_factory = true }

-- `int(os.getenv(…, default))`, and `start_http_server`, of which an OSError is caught.
abbrev serve_metrics : ℕ → PortVariable → Bool → Process → Outcome × Process
serve_metrics default malformed can_bind p = (raised, p)
serve_metrics default unset can_bind p =
    (returned, if can_bind then record p { metrics_port = some default } else p)
serve_metrics default (port n) can_bind p =
    (returned, if can_bind then record p { metrics_port = some n } else p)

abbrev pub worker_startup : PortVariable → Bool → Process → Outcome × Process
worker_startup variable can_bind p = serve_metrics 9101 variable can_bind (base_startup p)

abbrev pub scheduler_startup : PortVariable → Bool → Process → Outcome × Process
scheduler_startup variable can_bind p = serve_metrics 9102 variable can_bind (base_startup p)

-- A missing key raises.
unfoldable pub shutdown : Process → Outcome × Process
shutdown p = elim p.http_client [
  | missing ↦ (raised, p)
  | _ ↦ (returned, record p { http_client = is_closed; is_disposed = true })
]

-- Whatever the start came to, the end closes what it has opened; a port in use does not stop it.
shutdown-worker_startup :
    (variable : PortVariable) (can_bind : Bool) (p : Process)
    → ((shutdown (worker_startup variable can_bind p).1).0 ≡ returned)
      × ((shutdown (worker_startup variable can_bind p).1).1.http_client ≡ is_closed)
      × ((shutdown (worker_startup variable can_bind p).1).1.is_disposed ≡ true)
unfolding shutdown
shutdown-worker_startup unset can_bind p = ground arith
shutdown-worker_startup malformed can_bind p = ground arith
shutdown-worker_startup (port n) can_bind p = ground arith
