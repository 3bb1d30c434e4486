-- ===== src/WalStore.antt =====
-- WriteAheadKvStore of src/core/kv_store.cpp: a map of documents in memory, a log of mutations and a
-- snapshot. Each operation holds the store's mutex, so it is one step on the state.
-- A file is the bytes in it, `none` if it does not exist. What the file system decides enters as
-- `Io`, one for each call; what a call writes it writes whole.
mod State
mod Write
mod Read
mod Replay
unfoldable pub use State.*
unfoldable pub use Write.*
unfoldable pub use Read.*
unfoldable pub use Replay.*
