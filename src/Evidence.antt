-- ===== src/Evidence.antt =====
-- app/ops_agent/evidence.py: the redaction and the limit of what is kept as evidence.
pub mod Redaction
pub mod Hiding
pub mod Limits
