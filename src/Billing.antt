-- ===== src/Billing.antt =====
-- `StripeTestBillingAdapter` of packages/billing/src/index.ts. A method takes the adapter and returns
-- the new one with its result, or the error; every `throw` comes before the first write.
mod Types
mod Creating
mod Webhooks
pub mod Queue
pub mod Invariant
pub mod Applying
pub mod Processing
pub mod Funding
mod Tests
pub use Types.*
unfoldable pub use Creating.*
unfoldable pub use Webhooks.*
