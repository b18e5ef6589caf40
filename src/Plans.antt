-- ===== src/Plans.antt =====
-- The plans of app/ops_agent/services.py: how a repair is proposed, checked, approved or rejected.
pub mod Requests
pub mod DryRun
pub mod Review
pub mod Policy
pub mod Approval
pub mod Verdicts
pub mod Evolution
