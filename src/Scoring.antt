-- ===== src/Scoring.antt =====
-- internal/scoring/scoring.go: the score and the grades that a report shows.
mod Points
mod Clusters
mod Tally
mod Totals
pub mod Grouping
pub mod Indices
pub mod Sharing
pub mod Neutral
pub mod Tallied
pub mod Bounds
pub mod Charted
pub mod Offenders
mod Samples
unfoldable pub use Points.*
unfoldable pub use Clusters.*
unfoldable pub use Tally.*
unfoldable pub use Totals.*
