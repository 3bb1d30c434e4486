-- ===== src/Scan.antt =====
-- Range of WriteAheadKvStore (src/core/kv_store.cpp) against a selection from all documents.
pub mod Order
pub mod Select
pub mod HighKeys
