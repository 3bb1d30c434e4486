-- ===== src/Etcd.antt =====
-- src/infra/etcd_discovery.cpp in a build with etcd: the values that nodes store there, and the service
-- that keeps the router's ring in step with them.
mod Values
mod State
mod Session
unfoldable pub use Values.*
unfoldable pub use State.*
unfoldable pub use Session.*
pub mod Prefixes
pub mod Listed
pub mod Consistent
pub mod Events
