-- ===== src/Mock/Laws.antt =====
-- What the routes of the external services keep and remember.
use saga_orchestrator_patter.Base.{ℕ, ◌≡◌, true, Option, none, some, arith, if◌then◌else◌}
use saga_orchestrator_patter.Models.Enums.{success}
use saga_orchestrator_patter.World.Jobs.{Service, step_status}
use saga_orchestrator_patter.Mock.{
  MockAction, refund, release, cancel, MockStatus, processed, compensated, StateRecord, Db, lookup,
  store, replied, CallEnv, is_replay, process_service_call, Route, service_of, action_of,
  is_compensation_of, serve, to_response,
}

-- The status that belongs to an action.
abbrev pub status_of : MockAction → MockStatus
status_of refund = compensated
status_of release = compensated
status_of cancel = compensated
status_of _ = processed

-- A record that was written for an action of its own service.
abbrev pub Fits : Option StateRecord → Type 0
Fits none = Unit
Fits (some state) = state.status ≡ status_of state.last_action

abbrev pub IsConsistent : Db → Type 0
IsConsistent db = (s : Service) (id : ℕ) → Fits (lookup s id db)

lookup-store :
    (s t : Service) (id i : ℕ) (new : StateRecord) (db : Db)
    → Fits (some new)
    → Fits (lookup t i db)
    → Fits (lookup t i (store s id new db))
lookup-store s t id i new db n h = ground arith

route-Fits :
    (r : Route) (now : ℕ)
    → Fits (
        some (record {
          status = if is_compensation_of r then compensated else processed;
          last_action = action_of r;
          updated_at = now;
        }))
route-Fits r now = ground arith

serve_replays :
    (env : CallEnv) (r : Route) (id : ℕ) (db : Db)
    → is_replay (action_of r) (lookup (service_of r) id db) ≡ true
    → serve env r id db ≡ (replied true, db)
unfolding serve process_service_call
serve_replays env r id db h = rw h

module _ (env : CallEnv) (r : Route) (id : ℕ) (db : Db) where
  -- If every record has the status of its last action, compensated for the three rollbacks and
  -- processed for the others, and the other calls keep that, then it is so after a call of any
  -- route.
  serve-IsConsistent :
      IsConsistent db → IsConsistent (env.meanwhile db) → IsConsistent (serve env r id db).1
  unfolding serve process_service_call
  serve-IsConsistent h m t i =
      let new : StateRecord = record {
        status = if is_compensation_of r then compensated else processed;
        last_action = action_of r;
        updated_at = env.now;
      } in
      ground (
        arith,
        h t i,
        m t i,
        lookup-store (service_of r) t id i new (env.meanwhile db) (route-Fits r env.now) (m t i),
      )

  -- The call has a record of its action.
  remembers :
      step_status (to_response (serve env r id db).0) ≡ success
      → is_replay (action_of r) (lookup (service_of r) id (serve env r id db).1) ≡ true
  unfolding serve
  remembers ok = ground arith

  -- After a call of a route of the external services that was answered by 200, the same call right
  -- afterwards, whatever its random numbers, is answered as a replay and changes no record.
  serve_again :
      (again : CallEnv)
      → step_status (to_response (serve env r id db).0) ≡ success
      → serve again r id (serve env r id db).1 ≡ (replied true, (serve env r id db).1)
  serve_again again ok = serve_replays again r id (serve env r id db).1 (remembers ok)
