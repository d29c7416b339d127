-- ===== src/Source/Discovery.antt =====
-- internal/source/source.go: which files of a tree are scanned.
mod Decide
mod Classify
mod Files
mod Walker
pub mod Agreed
pub mod Explained
pub mod Layers
pub mod Increasing
pub mod Accounted
pub mod Reachable
pub mod Complete
pub mod Found
mod Samples
unfoldable pub use Decide.*
unfoldable pub use Classify.*
unfoldable pub use Files.*
unfoldable pub use Walker.*
