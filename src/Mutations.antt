-- ===== src/Mutations.antt =====
-- What Put, BatchPut and Delete of WriteAheadKvStore (src/core/kv_store.cpp) do to the documents, on
-- success and on failure.
pub mod Puts
pub mod Batched
pub mod Failures
