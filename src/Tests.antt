-- ===== src/Tests.antt =====
-- The theorems at concrete inputs, and runs of the definitions.
mod Fixtures
mod SagaRuns
mod TaskRuns
mod CompensationRuns
mod OrderRequests
mod JobTexts
mod AuthRuns
mod ApiRuns
mod WorkerRuns
mod SchedulerRuns
mod CronRuns
mod MigrationRuns
mod LogRuns
