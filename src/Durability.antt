-- ===== src/Durability.antt =====
-- What src/core/kv_store.cpp promises with its log and its snapshot: a store that is opened again has
-- the documents that it had.
pub mod Entries
pub mod Files
pub mod Invariant
pub mod Steps
pub mod Snapshot
pub mod Batches
pub mod Run
