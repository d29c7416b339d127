-- ===== src/Config.antt =====
-- internal/config/config.go: what a configuration says of each rule.
mod Fields
mod Normal
mod Rules
pub mod Precedence
mod Samples
unfoldable pub use Fields.*
unfoldable pub use Normal.*
unfoldable pub use Rules.*
