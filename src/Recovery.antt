-- ===== src/Recovery.antt =====
-- app/ops_agent/recovery.py, and what it leaves of stuck work.
pub mod Work
pub mod Loop
pub mod Expiry
pub mod Cleared
