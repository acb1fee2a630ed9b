-- ===== src/Rules.antt =====
-- The rules engine of packages/rules-engine/src/index.ts. Its `throw` statements are error values.
mod Types
mod Conditions
mod Checks
pub mod Engine
pub mod Order
pub mod Evaluation
pub mod Governance
mod Tests
pub use Types.*
unfoldable pub use Conditions.*
unfoldable pub use Checks.*
