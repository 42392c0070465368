-- ===== src/World/Effects.antt =====
-- The state that a task threads, and the steps that every task of src/workers/saga_tasks makes.
use saga_orchestrator_patter.Base.{ℕ, Bool, List, ◌∷◌, if◌then◌else◌}
use saga_orchestrator_patter.Models.Order.{Order, flush}
use saga_orchestrator_patter.Table.{OrderTable}
use saga_orchestrator_patter.World.Jobs.{Job, Post, compensation_job}
use saga_orchestrator_patter.World.Metrics.{Metrics}

-- A task returns, or ends by an exception.
pub data Outcome : Type 0 where
  returned raised : Outcome

-- What a commit does: it succeeds, it fails and the transaction is rolled back, or the connection
-- is lost after the database has committed.
pub data Commit : Type 0 where
  committed rolled_back lost : Commit

-- The message that `send_critical_alert` posts.
pub data Reason : Type 0 where
  exhausted_retries stuck_over_an_hour : Reason

pub record Alert : Type 0 where
  pub order_id : ℕ
  pub reason : Reason

-- The lists hold the latest call first.
pub record World (T : OrderTable) : Type 0 where
  pub rows : T.Rows
  pub jobs : List Job
  pub posts : List Post
  pub metrics : Metrics
  pub alerts : List Alert

module _ {T : OrderTable} where
  -- `await http_client.post(url)`, whatever comes back
  abbrev pub post : Post → World T → World T
  post p w = record w { posts = p ∷ w.posts }

  -- `await redis.enqueue_job(…)`: a call that fails leaves no job
  abbrev pub enqueue : Bool → Job → World T → World T
  enqueue sent job w = if sent then record w { jobs = job ∷ w.jobs } else w

  abbrev pub measure : (Metrics → Metrics) → World T → World T
  measure f w = record w { metrics = f w.metrics }

  -- `await session.commit()` at time `now`, of a session that changed the row `old` to `new`
  unfoldable pub commit : Commit → ℕ → Order → Order → World T → Outcome × World T
  commit Commit.committed now old new w =
      (returned, record w { rows = T.write (flush now old new) w.rows })
  commit rolled_back now old new w = (raised, w)
  commit lost now old new w = (raised, record w { rows = T.write (flush now old new) w.rows })

  -- `except Exception as e:` of the three forward tasks: enqueue a compensation, suppress what
  -- that raises, and raise `e` again
  unfoldable pub rescue : Bool → ℕ → Outcome × World T → Outcome × World T
  rescue sent id (returned, w) = (returned, w)
  rescue sent id (raised, w) = (raised, enqueue sent (compensation_job id) w)

  -- src/services/notifications.py: an alert is posted if a webhook is configured, and nothing that
  -- goes wrong with it reaches the caller
  abbrev pub send_critical_alert : Bool → ℕ → Reason → World T → World T
  send_critical_alert webhook id reason w =
      if webhook
      then record w { alerts = record { order_id = id; reason = reason } ∷ w.alerts }
      else w
