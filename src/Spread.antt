-- ===== src/Spread.antt =====
-- The charge of a protection: packages/spread-engine/src/index.ts. A `throw` is an error value.
mod Types
mod Proposing
mod Simulating
mod Publishing
pub mod Precedence
pub mod Adjusted
pub mod Release
mod Tests
pub use Types.*
unfoldable pub use Proposing.*
unfoldable pub use Simulating.*
unfoldable pub use Publishing.*
