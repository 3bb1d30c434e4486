-- ===== src/Serving.antt =====
-- What the gateway of src/gateway/server.cpp does with a store that keeps the promises of `Laws`.
pub mod Laws
pub mod Ascending
pub mod Paging
pub mod Verdicts
pub mod Stored
pub mod ReadBack
pub mod Batch
