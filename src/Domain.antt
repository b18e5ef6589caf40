-- ===== src/Domain.antt =====
-- app/ops_agent/domain.py: the enums of the domain and the rules for their transitions.
-- `validate_transition` takes any two `StrEnum` values, so `Status` is the sum of the status enums:
-- five of them have an entry in TRANSITIONS, and the last three have none.
mod Enums
mod Transitions
pub mod Paths
pub mod Gates
unfoldable pub use Enums.*
unfoldable pub use Transitions.*
