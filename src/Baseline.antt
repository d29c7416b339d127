-- ===== src/Baseline.antt =====
-- internal/baseline/baseline.go: reviewed findings, and the pairing of a scan against them.
mod Entries
mod Pairing
mod Apply
mod Files
pub mod Loops
pub mod Consume
pub mod Totals
pub mod Document
pub mod RoundTrip
pub mod Reviewed
pub mod Flags
pub mod Matching
pub mod Counts
mod Samples
unfoldable pub use Entries.*
unfoldable pub use Pairing.*
unfoldable pub use Apply.*
unfoldable pub use Files.*
