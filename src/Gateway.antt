-- ===== src/Gateway.antt =====
-- InProcessGatewayServer of src/gateway/server.cpp: the calls of clients, from the guards to the store,
-- the outbox and the vector index. Each call runs alone.
mod State
mod Guards
mod Writes
mod Reads
mod Lifecycle
unfoldable pub use State.*
unfoldable pub use Guards.*
unfoldable pub use Writes.*
unfoldable pub use Reads.*
unfoldable pub use Lifecycle.*
