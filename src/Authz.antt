-- ===== src/Authz.antt =====
-- The authorization policy of packages/authz/src/index.ts.
mod Types
mod Roles
mod Rulings
mod Demo
pub mod Policy
pub mod Decisions
mod Tests
pub use Types.*
unfoldable pub use Roles.*
unfoldable pub use Rulings.*
unfoldable pub use Demo.*
