-- ===== src/World.antt =====
-- What a worker task can see and change: the database, and what it has sent to the broker, to the
-- external services, to the metrics registry and to the alert channel. The outside world answers
-- each call through the task's environment, a record of replies that the caller chooses freely.
pub mod Jobs
pub mod JobIds
pub mod Metrics
pub mod Scrape
pub mod Effects
