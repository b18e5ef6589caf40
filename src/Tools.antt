-- ===== src/Tools.antt =====
-- app/ops_agent/tooling.py: the registry of the tools that the agent may call.
mod Registry
pub mod Scope
unfoldable pub use Registry.*
