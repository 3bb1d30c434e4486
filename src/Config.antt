-- ===== src/Config.antt =====
-- src/infra/config.cpp: the configuration of a server, from a file of flat keys or of sections.
mod State
mod Text
mod Settings
mod Sections
mod Load
unfoldable pub use State.*
unfoldable pub use Text.*
unfoldable pub use Settings.*
unfoldable pub use Sections.*
unfoldable pub use Load.*
pub mod Keeps
mod Applied
pub mod Bounds
