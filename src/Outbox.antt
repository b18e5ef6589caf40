-- ===== src/Outbox.antt =====
-- The outbox dispatcher (`dispatch_pending_once` of app/ops_agent/outbox.py) with the queue that it
-- feeds (app/ops_agent/queueing.py).
pub mod Queue
pub mod Dispatch
pub mod Delivery
pub mod Handling
pub mod Fate
pub mod Retries
pub mod Storing
pub mod Handover
