-- ===== src/Remediation.antt =====
-- app/ops_agent/auto_remediation.py, and what it never does.
pub mod Attempt
pub mod Policy
