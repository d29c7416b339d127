-- ===== src/Pathfilter.antt =====
-- internal/pathfilter/pathfilter.go: path patterns of the configuration, validated and matched.
mod Patterns
pub mod First
pub mod Guards
pub mod Accepted
mod Samples
unfoldable pub use Patterns.*
