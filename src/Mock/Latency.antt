-- ===== src/Mock/Latency.antt =====
-- How long the services of mock_env/main.py take to answer, in milliseconds, and how long the client
-- that src/workers/lifecycle.py makes waits for an answer.
use saga_orchestrator_patter.Base.{ℕ, ◌+◌, ◌≤◌, ◌≡◌, ltb, leb, arith, if◌then◌else◌}
use saga_orchestrator_patter.World.Jobs.{HttpResult, failure}
use saga_orchestrator_patter.Mock.{
  ErrorType, timeout, rate_limit, server_error, service_unavailable, bad_request, Chance, lucky,
  unlucky, CallEnv, Db, Route, serve, service_of, action_of, is_replay, lookup, to_response,
}

abbrev min : ℕ → ℕ → ℕ
min a b = if ltb a b then a else b

-- `get_realistic_latency`, from the number that `lognormvariate` draws
abbrev pub get_realistic_latency : ℕ → ℕ
get_realistic_latency drawn = min drawn 8000

-- The sleep before each of the errors.
abbrev pub error_delay : ErrorType → ℕ → ℕ
error_delay timeout delay = min (delay + 4000) 6000
error_delay rate_limit delay = 50
error_delay server_error delay = delay
error_delay service_unavailable delay = 100
error_delay bad_request delay = delay

-- The sleep of a call that is no replay.
abbrev pub sleep_of : Chance → ℕ → ℕ
sleep_of lucky delay = delay
sleep_of (unlucky e) delay = error_delay e delay

unfoldable pub delay_of : CallEnv → ℕ → Route → ℕ → Db → ℕ
delay_of env drawn r id db =
    if is_replay (action_of r) (lookup (service_of r) id db)
    then 0
    else sleep_of env.chance (get_realistic_latency drawn)

-- `httpx.Timeout(read=10.0)`
abbrev pub read_timeout : ℕ
read_timeout = 10000

-- What `http_client.post` gives the worker.
unfoldable pub post_result : CallEnv → ℕ → Route → ℕ → Db → HttpResult
post_result env drawn r id db =
    if leb (delay_of env drawn r id db) read_timeout
    then to_response (serve env r id db).0
    else failure

delay_of-le :
    (env : CallEnv) (drawn : ℕ) (r : Route) (id : ℕ) (db : Db) → delay_of env drawn r id db ≤ 8000
unfolding delay_of
delay_of-le env drawn r id db = ground arith

-- Whatever the random numbers, the services of the mock answer within 8 seconds, so that the read
-- timeout of the workers' HTTP client is never met and every call gets the response that the mock
-- gives.
post_result_lem :
    (env : CallEnv) (drawn : ℕ) (r : Route) (id : ℕ) (db : Db)
    → (delay_of env drawn r id db ≤ 8000)
      × (post_result env drawn r id db ≡ to_response (serve env r id db).0)
unfolding post_result
post_result_lem env drawn r id db =
    let bound = delay_of-le env drawn r id db in (bound, ground arith)
