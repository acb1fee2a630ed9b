-- ===== src/Fx.antt =====
-- Exchange rates, their adjustment and their use: packages/fx-engine/src/index.ts. A `throw` is an
-- error value.
mod Types
mod Rates
mod Adjusting
pub mod Governance
pub mod Rounding
mod Tests
pub use Types.*
unfoldable pub use Rates.*
unfoldable pub use Adjusting.*
