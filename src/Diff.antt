-- ===== src/Diff.antt =====
-- internal/diff/diff.go: which lines of which files a change touches, and the findings on them.
mod Changed
mod Patch
mod Ranges
mod Scope
mod Git
pub mod Merging
pub mod Coverage
pub mod Maps
pub mod Entries
pub mod RangeSets
pub mod Modes
pub mod Hunks
pub mod Panics
pub mod Listing
pub mod Overlap
mod Samples
unfoldable pub use Changed.*
unfoldable pub use Patch.*
unfoldable pub use Ranges.*
unfoldable pub use Scope.*
unfoldable pub use Git.*
