-- ===== src/Settlement.antt =====
-- Settlement of a purchase, and release of what is left of a protection, in
-- packages/settlement-engine/src/index.ts. A `throw` is an error value. Prices and
-- quantities are integers (the code tests prices, not the quantities of an allocation). Products and
-- sums of numerators, and the sums and differences that are formed from them, are rounded to
-- doubles. The floor of a quotient by a million is exact here: for a numerator up to 2 ^ 53 the
-- double nearest to the quotient never reaches the next integer, and the theorems are about such.
mod Types
mod Checks
mod Pricing
mod Instruction
mod Settling
pub mod Exact
pub mod Slices
pub mod Range
pub mod Sums
pub mod Totals
pub mod Posting
pub mod Outcome
pub mod Release
mod Tests
pub use Types.*
unfoldable pub use Checks.*
unfoldable pub use Pricing.*
unfoldable pub use Instruction.*
unfoldable pub use Settling.*
