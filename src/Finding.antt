-- ===== src/Finding.antt =====
-- internal/finding: the finding record, its enumerations, the exit threshold and the identities.
mod Types
mod Threshold
mod Identity
pub mod Order
pub mod Subject
mod Samples
unfoldable pub use Types.*
unfoldable pub use Threshold.*
unfoldable pub use Identity.*
