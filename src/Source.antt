-- ===== src/Source.antt =====
-- internal/source: which files a scan looks at.
mod Ignored
mod Gitignore
mod Discovery
pub mod Walk
mod Samples
unfoldable pub use Ignored.*
