-- ===== src/Incidents.antt =====
-- The incidents of app/ops_agent/services.py.
pub mod Alerts
pub mod Retention
pub mod Recovered
pub mod Verified
