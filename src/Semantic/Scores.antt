-- ===== src/Semantic/Scores.antt =====
-- Search of src/gateway/semantic_search_service.cpp over a write-ahead store: which score a hit gets.
use range_vec_kv.Base.{
  ℕ, ◌≡◌, refl, ap, ◌∙◌, false, ◌&&◌, some, List, [], ◌∷◌, map, All, if◌then◌else◌,
}
use range_vec_kv.Base.Bytes.{Bytes, bytes}
use range_vec_kv.OrderedMap.{find}
use range_vec_kv.Status.{value}
use range_vec_kv.Document.{DocumentRecord, build_composite_key}
use range_vec_kv.Document.Mutation.{is_empty}
use range_vec_kv.WalStore.{WalStore, multi_get, range}
use range_vec_kv.VectorIndex.{SearchReference, VectorIndex, Library, search}
use range_vec_kv.Semantic.Fallback.{
  SemanticSearchQuery, SearchHit, SearchConfig, SearchBackend, effective_collection,
  effective_top_k,
}
use range_vec_kv.Semantic.Search.{
  Embedding, EmbeddingOutcome, answered, convert_filters, semantic_hits, semantic_result,
  search_by_embedding, search_with, semantic_search,
}

module _ {Double : Type 0} where
  abbrev pub address : SearchReference Double → Bytes × Bytes
  address reference = (reference.collection, reference.key)

  -- The store has the document that the reference names.
  pub record IsStored (s : WalStore) (reference : SearchReference Double) : Type 0 where
    pub document : DocumentRecord
    pub found :
        find (build_composite_key reference.collection reference.key) s.records ≡ some document
    pub same_key : document.key ≡ reference.key

  abbrev pub scored : SearchReference Double → Bytes × Double
  scored reference = (reference.key, reference.score)

  abbrev pub scored_hit : SearchHit Double → Bytes × Double
  scored_hit h = (h.key, h.score)

module _ {Float Double : Type 0} where
  -- A write-ahead store and a persistent vector index behind the service.
  abbrev pub wal_backend :
      Library Float Double
      → (ℕ → Double)
      → WalStore
      → VectorIndex Float
      → SearchBackend Float Double
  wal_backend lib of_natural s index = record {
    multi_get = λ references. value (multi_get s (map address references));
    range = λ collection first last limit. value (range s collection first last limit);
    search_index =
        λ collection query filters top_k. search lib collection query filters top_k index;
    of_natural = of_natural;
  }

  module _ (backend : SearchBackend Float Double) (s : WalStore) (query : Bytes) where
    semantic_hits-multi_get :
        (references : List (SearchReference Double))
        → All (IsStored s) references
        → map scored_hit
            (semantic_hits backend query (multi_get s (map address references)) references)
          ≡ map scored references
    unfolding semantic_hits multi_get
    semantic_hits-multi_get [] h = refl
    semantic_hits-multi_get (reference ∷ references) h =
        rw (map, semantic_hits, multi_get, h.0.found)
          (ap
              (λ k.
                (k, reference.score)
                ∷ map scored_hit
                    (semantic_hits backend query (multi_get s (map address references)) references))
              h.0.same_key
            ∙ ap (λ l. scored reference ∷ l) (semantic_hits-multi_get references h.1))

  -- Where the embedding of a query that is not empty arrives in time, the vector index answers with
  -- references, and the store has the document of each of them, Search answers with one hit for each
  -- reference, in the order of the references, with that reference's key and score.
  pub semantic_search-scores :
      (lib : Library Float Double) (of_natural : ℕ → Double) (s : WalStore)
      (index : VectorIndex Float) (config : SearchConfig)
      (embed_image embed_text : Bytes → EmbeddingOutcome Float) (q : SemanticSearchQuery)
      (embedding : Embedding Float) (references : List (SearchReference Double))
      → (is_empty q.query && is_empty q.image_reference) ≡ false
      → (if is_empty q.image_reference then embed_text q.query else embed_image q.image_reference)
        ≡ answered (value embedding)
      → search lib
          (effective_collection config q)
          embedding.vector
          (convert_filters q.filters)
          (effective_top_k config q)
          index
        ≡ value references
      → All (IsStored s) references
      → (hits : List (SearchHit Double)) × (semantic_search
            (wal_backend lib of_natural s index)
            config
            embed_image
            embed_text
            q
          ≡ value (record {
            trace_id = q.trace_id;
            hits = hits;
            degraded = embedding.degraded;
            message = bytes "semantic search completed";
          }))
        × (map scored_hit hits ≡ map scored references)
  unfolding semantic_search search_with search_by_embedding semantic_result
  semantic_search-scores lib of_natural s index config embed_image embed_text q embedding references
        asked embedded found stored =
      (
        semantic_hits (wal_backend lib of_natural s index) q.query
            (multi_get s (map address references)) references,
        rw (asked, embedded, search_by_embedding, found) refl,
        semantic_hits-multi_get (wal_backend lib of_natural s index) s q.query references stored,
      )
