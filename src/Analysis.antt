-- ===== src/Analysis.antt =====
-- internal/analysis: what happens to findings between the rules and the report.
mod Display
mod Composite
mod Region
mod Exit
mod Report
mod Filtered
mod Inputs
mod Run
pub mod Stages
pub mod Kept
pub mod Whole
pub mod Shown
pub mod Pruned
pub mod Scoped
pub mod Gate
pub mod Enclosing
pub mod Ordered
pub mod Reported
mod Samples
mod RunSamples
unfoldable pub use Display.*
unfoldable pub use Composite.*
unfoldable pub use Region.*
unfoldable pub use Exit.*
unfoldable pub use Report.*
unfoldable pub use Filtered.*
unfoldable pub use Inputs.*
unfoldable pub use Run.*
