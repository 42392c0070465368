-- ===== src/Tests/CompensationRuns.antt =====
-- Compensations of an order whose reservation failed, and of one that waits for a step.
use saga_orchestrator_patter.Base.{◌≡◌, refl, ◌⊎◌, some, []}
use saga_orchestrator_patter.Models.Enums.{same_step, same_status}
use saga_orchestrator_patter.Models.Order.{Order, flush}
use saga_orchestrator_patter.Table.RowList.{row_list}
use saga_orchestrator_patter.Table.Rows.{keyed}
use saga_orchestrator_patter.World.Jobs.{response, failure}
use saga_orchestrator_patter.World.Effects.{World, returned}
use saga_orchestrator_patter.Tasks.Compensation.{CompensationEnv, compensation}
use saga_orchestrator_patter.Tasks.Compensation.Row.{begin_row}
use saga_orchestrator_patter.Tasks.Compensation.Laws.{rollbacks, compensation_posts}
use saga_orchestrator_patter.Tasks.Compensation.Settles.{Settles, compensation-Settles}
use saga_orchestrator_patter.Tests.Fixtures.{half_done, world_of, compensation_env}

abbrev undoing : CompensationEnv row_list
undoing = compensation_env (response 200)

abbrev start : World row_list
start = world_of half_done

-- The row when the last session reads it.
abbrev between_sessions : Order
between_sessions = flush 130 half_done (begin_row 130 half_done)

compensation-Settles_example :
    (row : Order) × ((compensation undoing 7 0 start).0 ≡ returned)
    × (keyed 7 (compensation undoing 7 0 start).1.rows.0 ≡ some row)
    × ((compensation undoing 7 0 start).1.posts ≡ rollbacks half_done 7 [])
    × Settles undoing 7 0 half_done between_sessions row start (compensation undoing 7 0 start).1
unfolding flush same_step same_status
compensation-Settles_example =
    compensation-Settles undoing 7 0 start half_done between_sessions
      record { read = refl; began = refl; reread = refl; ended = refl; retry_sent = refl } refl refl
      refl

compensation_posts_example :
    ((compensation undoing 7 0 start).1.posts ≡ [])
    ⊎ ((compensation undoing 7 0 start).1.posts ≡ rollbacks half_done 7 [])
compensation_posts_example = compensation_posts undoing 7 0 start half_done refl

-- The rollbacks fail, so that there is a retry.
abbrev unreachable : CompensationEnv row_list
unreachable = compensation_env failure
