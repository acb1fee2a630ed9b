-- ===== src/Cards.antt =====
-- `CardAuthorizationClearingSimulator` of packages/card-simulator/src/index.ts. A method takes the
-- simulator and returns the new one with its result, or the error; every `throw` comes before the
-- first write. A result is an `Option` where the source reads a map with `get(...)!`.
mod Types
mod Checks
mod Authorizing
mod Clearing
mod Reversing
pub mod Steps
pub mod Invariant
pub mod Settlement
pub mod Limits
pub mod Lifecycle
pub mod Finality
pub mod Replay
pub mod ClearingReplay
mod Tests
pub use Types.*
unfoldable pub use Checks.*
unfoldable pub use Authorizing.*
unfoldable pub use Clearing.*
unfoldable pub use Reversing.*
