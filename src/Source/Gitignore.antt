-- ===== src/Source/Gitignore.antt =====
-- internal/source/gitignore.go: whether .gitignore files of a repository ignore a path.
mod Parse
mod Segments
mod Chain
mod Loaded
pub mod Globs
pub mod Prefixes
pub mod Verdict
pub mod Last
pub mod Below
pub mod Valid
mod Samples
pub mod Cached
unfoldable pub use Parse.*
unfoldable pub use Segments.*
unfoldable pub use Chain.*
unfoldable pub use Loaded.*
