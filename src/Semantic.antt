-- ===== src/Semantic.antt =====
-- src/gateway/semantic_search_service.cpp, SemanticSearchService: a search by embedding and vector
-- index, and the search by keywords when there is no embedding.
mod Text
mod Fallback
mod Search
mod Sorting
pub mod Ranking
pub mod Scores
pub mod Stored
unfoldable pub use Text.*
unfoldable pub use Fallback.*
unfoldable pub use Search.*
