-- ===== src/Config.antt =====
-- src/config.rs: the configuration, its defaults, and its validation.
mod Defaults
mod Backend
mod Server
mod Load
pub mod Validity
unfoldable pub use Defaults.*
unfoldable pub use Backend.*
unfoldable pub use Server.*
unfoldable pub use Load.*
