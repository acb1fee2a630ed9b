-- ===== src/Ledger.antt =====
-- The double-entry ledger of packages/ledger/src/index.ts, operation by operation. A `throw` is an
-- error result. Amounts are integers: a fractional or infinite amount, which `isSafeInteger` refuses,
-- has no counterpart, and sums are exact.
mod Types
mod Checks
mod Journals
mod Reports
mod Corrections
pub mod Validation
pub mod Posting
pub mod Idempotency
pub mod Chain
pub mod Invariant
pub mod Inherited
pub mod Projection
pub mod Reversal
pub mod Sample
mod Tests
pub use Types.*
unfoldable pub use Checks.*
unfoldable pub use Journals.*
unfoldable pub use Reports.*
unfoldable pub use Corrections.*
