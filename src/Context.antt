-- ===== src/Context.antt =====
-- The evidence that a model sees, app/ops_agent/context_memory.py.
pub mod Memory
pub mod Selection
pub mod Packing
