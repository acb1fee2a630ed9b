-- ===== src/Waitlist.antt =====
-- The waitlist of the landing page: landing-page/lib/store.ts and landing-page/lib/types.ts.
mod Types
mod Merging
mod Stores
pub mod Markets
pub mod Analytics
pub mod Funnel
pub mod Rows
pub mod Breakdown
pub mod Listing
pub mod Backend
pub mod Registry
pub mod Refinement
mod Tests
pub use Types.*
unfoldable pub use Merging.*
unfoldable pub use Stores.*
