-- ===== src/Mock.antt =====
-- mock_env/main.py: the external services that the repository brings along for its own runs, with
-- their memory of past calls.
pub mod Laws
pub mod Latency
use saga_orchestrator_patter.Base.{ℕ, Bool, true, false, Option, none, some, ◌==◌, if◌then◌else◌}
use saga_orchestrator_patter.World.Jobs.{Service, HttpResult, response}

pub data MockAction : Type 0 where
  charge refund reserve release arrange cancel : MockAction

-- `state_record.get("last_action") == action`
abbrev pub same_action : MockAction → MockAction → Bool
same_action charge charge = true
same_action refund refund = true
same_action reserve reserve = true
same_action release release = true
same_action arrange arrange = true
same_action cancel cancel = true
same_action _ _ = false

pub data MockStatus : Type 0 where
  processed compensated : MockStatus

pub record StateRecord : Type 0 where
  pub status : MockStatus
  pub last_action : MockAction
  pub updated_at : ℕ

-- `db`: one dictionary for each service, from an order's id to its record.
pub record Db : Type 0 where
  pub billing : ℕ → Option StateRecord
  pub inventory : ℕ → Option StateRecord
  pub logistics : ℕ → Option StateRecord

-- `db[service].get(order_id)`
abbrev pub lookup : Service → ℕ → Db → Option StateRecord
lookup Service.billing id db = db.billing id
lookup Service.inventory id db = db.inventory id
lookup Service.logistics id db = db.logistics id

abbrev pub assign : ℕ → StateRecord → (ℕ → Option StateRecord) → ℕ → Option StateRecord
assign id new entries i = if id == i then some new else entries i

-- `service_db[order_id] = …`
abbrev pub store : Service → ℕ → StateRecord → Db → Db
store Service.billing id new db = record db { billing = assign id new db.billing }
store Service.inventory id new db = record db { inventory = assign id new db.inventory }
store Service.logistics id new db = record db { logistics = assign id new db.logistics }

pub data ErrorType : Type 0 where
  timeout server_error bad_request service_unavailable rate_limit : ErrorType

-- What the random numbers of one call decide.
pub data Chance : Type 0 where
  lucky : Chance
  unlucky : ErrorType → Chance

abbrev pub error_code : ErrorType → ℕ
error_code timeout = 504
error_code rate_limit = 429
error_code server_error = 500
error_code service_unavailable = 503
error_code bad_request = 400

-- The dictionary of a success, with its `idempotent_replay`, or the exception's status code.
pub data CallResult : Type 0 where
  replied : Bool → CallResult
  refused : ℕ → CallResult

-- The random numbers, the calls that others make while this one sleeps, and the time.
pub record CallEnv : Type 0 where
  pub chance : Chance
  pub meanwhile : Db → Db
  pub now : ℕ

-- The action was already performed.
abbrev pub is_replay : MockAction → Option StateRecord → Bool
is_replay action none = false
is_replay action (some state) = same_action state.last_action action

execute_action : CallEnv → Service → ℕ → MockAction → Bool → Db → CallResult × Db
execute_action env service id action is_compensation db = elim env.chance [
  | lucky ↦ (
    replied false,
    store service id
        (record {
          status = if is_compensation then compensated else processed;
          last_action = action;
          updated_at = env.now;
        })
        (env.meanwhile db),
  )
  | unlucky e ↦ (refused (error_code e), env.meanwhile db)
]

unfoldable pub process_service_call :
    CallEnv → Service → ℕ → MockAction → Bool → Db → CallResult × Db
unfolding execute_action
process_service_call env service id action is_compensation db =
    if is_replay action (lookup service id db)
    then (replied true, db)
    else execute_action env service id action is_compensation db

-- The six routes.
pub data Route : Type 0 where
  process_billing refund_billing reserve_inventory : Route
  release_inventory arrange_logistics cancel_logistics : Route

abbrev pub service_of : Route → Service
service_of process_billing = Service.billing
service_of refund_billing = Service.billing
service_of reserve_inventory = Service.inventory
service_of release_inventory = Service.inventory
service_of arrange_logistics = Service.logistics
service_of cancel_logistics = Service.logistics

abbrev pub action_of : Route → MockAction
action_of process_billing = charge
action_of refund_billing = refund
action_of reserve_inventory = reserve
action_of release_inventory = release
action_of arrange_logistics = arrange
action_of cancel_logistics = cancel

abbrev pub is_compensation_of : Route → Bool
is_compensation_of refund_billing = true
is_compensation_of release_inventory = true
is_compensation_of cancel_logistics = true
is_compensation_of _ = false

unfoldable pub serve : CallEnv → Route → ℕ → Db → CallResult × Db
unfolding process_service_call
serve env r id db =
    process_service_call env (service_of r) id (action_of r) (is_compensation_of r) db

-- The response that the caller sees.
abbrev pub to_response : CallResult → HttpResult
to_response (replied replay) = response 200
to_response (refused code) = response code
