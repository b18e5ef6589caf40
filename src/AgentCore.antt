-- ===== src/AgentCore.antt =====
-- app/ops_agent/agent_core.py: the bounded loop that investigates an incident with read-only tools.
pub mod Decision
pub mod Accepted
pub mod Policy
pub mod Permission
pub mod Store
pub mod Lease
pub mod Finish
pub mod Exclusive
pub mod Handover
pub mod Ended
pub mod Final
pub mod Budget
pub mod Deciding
pub mod Calling
pub mod Process
pub mod Rounds
pub mod Progress
pub mod Advance
pub mod Rounding
pub mod Termination
pub mod Bounded
pub mod Interrupted
