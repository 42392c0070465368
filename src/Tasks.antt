-- ===== src/Tasks.antt =====
-- The saga tasks of src/workers/saga_tasks, one module each, with their proofs in child modules.
pub mod Env
pub mod Billing
pub mod Inventory
pub mod Logistics
pub mod Parallel
pub mod Counted
pub mod Compensation
