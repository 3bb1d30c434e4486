-- ===== src/Semantic/Stored.antt =====
-- KeywordFallback of src/gateway/semantic_search_service.cpp over a write-ahead store: which documents
-- of the store it looks at.
use range_vec_kv.Base.{ℕ, ◌≡◌, ap, min, max, List, [], ◌∷◌, ◌++◌, map, take, true, All}
use range_vec_kv.Base.Bytes.{Bytes, bytes}
use range_vec_kv.Base.Ordered.{IsTop}
use range_vec_kv.OrderedMap.Sorted.{IsSorted}
use range_vec_kv.Status.{value}
use range_vec_kv.Document.{DocumentRecord}
use range_vec_kv.Document.Keys.{IsPlain}
use range_vec_kv.WalStore.{WalStore}
use range_vec_kv.Scan.Select.{IsPlaced, select, range-select}
use range_vec_kv.VectorIndex.{VectorIndex, Library}
use range_vec_kv.Semantic.Fallback.{
  SemanticSearchQuery, SearchConfig, effective_collection, keyword_hit, keyword_fallback,
}
use range_vec_kv.Semantic.Search.{convert_filters}
use range_vec_kv.Semantic.Ranking.{relevant, precedes, keyword_fallback-IsTop}
use range_vec_kv.Semantic.Scores.{wal_backend}

module _ {Float Double : Type 0} (lib : Library Float Double) (of_natural : ℕ → Double) where
  -- Over a write-ahead store, KeywordFallback looks at the documents of the collection whose key is not
  -- above the text "\x7f", and of these at the first 1000 in key order. It answers, marked as
  -- degraded, with those of them on which all filters hold and that contain something of the query:
  -- the most relevant first, by key among equals, as many as top_k asks for, but one for a top_k of
  -- zero and at most max_top_k, and all if they are fewer. None that was left out goes before one
  -- that was taken. The store's documents stand under their keys in order, and no name of a
  -- collection holds the separator.
  pub keyword_fallback-select :
      (s : WalStore) (index : VectorIndex Float) (config : SearchConfig) (q : SemanticSearchQuery)
      (trace reason : Bytes)
      → IsPlain (effective_collection config q)
      → All IsPlaced s.records
      → IsSorted s.records
      → let backend = wal_backend lib of_natural s index in
        let scanned = take 1000 (select (effective_collection config q) [] (0x7f ∷ []) s.records) in
        (ranked : List (ℕ × DocumentRecord)) × (keyword_fallback backend config q trace reason
          ≡ value (record {
            trace_id = trace;
            hits = map (keyword_hit backend q.query) ranked;
            degraded = true;
            message = bytes "keyword fallback: " ++ reason;
          }))
        × IsTop precedes
            (min (max 1 q.top_k) config.max_top_k)
            (relevant q.query (convert_filters q.filters) scanned)
            ranked
  keyword_fallback-select s index config q trace reason plain placed sorted =
      keyword_fallback-IsTop (wal_backend lib of_natural s index) config q trace reason _
        (ap value (range-select s _ [] [] 1000 plain placed sorted))
