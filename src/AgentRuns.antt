-- ===== src/AgentRuns.antt =====
-- The agent runs of app/ops_agent/services.py.
pub mod Failure
pub mod Ending
pub mod Creation
pub mod Insertion
pub mod Bounds
pub mod Entry
