-- ===== src/Executions.antt =====
-- The executions of app/ops_agent/services.py, and the worker entry of app/ops_agent/jobs.py that
-- runs one.
pub mod Creation
pub mod Idempotency
pub mod Processing
pub mod Failure
pub mod Job
pub mod Retention
pub mod Evolution
pub mod Safety
pub mod Repair
pub mod Outcomes
pub mod Settling
pub mod Outcome
pub mod Redelivery
