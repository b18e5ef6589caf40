-- ===== src/Tests.antt =====
-- The theorems at concrete inputs.
mod Data
mod Transitions
mod Plans
mod Executions
mod Outbox
mod Recovery
mod Incidents
mod AgentRuns
mod AgentData
mod AgentCore
mod Verifier
mod Context
