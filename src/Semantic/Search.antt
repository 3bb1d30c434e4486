-- ===== src/Semantic/Search.antt =====
-- Search and HealthCheck of src/gateway/semantic_search_service.cpp.
use range_vec_kv.Base.{ℕ, Bool, ◌&&◌, List, [], ◌∷◌, ◌++◌, if◌then◌else◌}
use range_vec_kv.Base.Bytes.{Bytes, bytes, bytes_eq}
use range_vec_kv.OrderedMap.{Map, emplace}
use range_vec_kv.Status.{StatusOr, value, status, invalid_argument, to_string}
use range_vec_kv.Document.{DocumentRecord}
use range_vec_kv.Document.Mutation.{is_empty}
use range_vec_kv.VectorIndex.{SearchFilter, SearchReference}
use range_vec_kv.Routing.{to_decimal}
use range_vec_kv.Semantic.Text.{build_snippet}
use range_vec_kv.Semantic.Fallback.{
  GatewayFilter, SemanticSearchQuery, SearchHit, SemanticSearchResult, SearchConfig, SearchBackend,
  effective_collection, effective_top_k, keyword_fallback,
}

-- ConvertFilters(filters)
unfoldable pub convert_filters : List GatewayFilter → List SearchFilter
convert_filters [] = []
convert_filters (f ∷ filters) =
    record { field = f.field; expected = f.wanted_value } ∷ convert_filters filters

pub record Embedding (Float : Type 0) : Type 0 where
  pub vector : List Float
  pub backend : Bytes
  pub degraded : Bool

-- How a call of the embedding service ends: not in time, by an exception, or with its answer.
pub data EmbeddingOutcome (Float : Type 0) : Type 0 where
  timed_out : EmbeddingOutcome Float
  threw : Bytes → EmbeddingOutcome Float
  answered : StatusOr (Embedding Float) → EmbeddingOutcome Float

module _ {Float Double : Type 0} (backend : SearchBackend Float Double) where
  abbrev pub semantic_hit : Bytes → Double → DocumentRecord → SearchHit Double
  semantic_hit query score r = record {
    key = r.key;
    title = r.title;
    snippet = build_snippet r.body query;
    score = score;
    metadata = r.metadata;
  }

  -- The loop over the documents, with the references by position.
  unfoldable pub semantic_hits :
      Bytes → List DocumentRecord → List (SearchReference Double) → List (SearchHit Double)
  semantic_hits query [] references = []
  semantic_hits query (r ∷ rest) [] =
      semantic_hit query (backend.of_natural 0) r ∷ semantic_hits query rest []
  semantic_hits query (r ∷ rest) (reference ∷ references) =
      semantic_hit query reference.score r ∷ semantic_hits query rest references

  -- The end of Search, from the documents of the references on.
  unfoldable pub semantic_result :
      SemanticSearchQuery
      → Embedding Float
      → List (SearchReference Double)
      → StatusOr (List DocumentRecord)
      → StatusOr (SemanticSearchResult Double)
  semantic_result q embedding references (status st) = status st
  semantic_result q embedding references (value documents) = value (record {
    trace_id = q.trace_id;
    hits = semantic_hits q.query documents references;
    degraded = embedding.degraded;
    message = bytes "semantic search completed";
  })

  unfoldable pub search_by_embedding :
      SearchConfig → SemanticSearchQuery → Embedding Float → StatusOr (SemanticSearchResult Double)
  search_by_embedding config q embedding =
      elim (backend.search_index (effective_collection config q) embedding.vector
        (convert_filters q.filters) (effective_top_k config q)) [
          | status st ↦ status st
          | value references ↦ semantic_result q embedding references (backend.multi_get references)
        ]

  -- What Search does with the outcome of the embedding.
  unfoldable pub search_with :
      SearchConfig
      → SemanticSearchQuery
      → EmbeddingOutcome Float
      → StatusOr (SemanticSearchResult Double)
  search_with config q timed_out =
      keyword_fallback backend config q q.trace_id
        (bytes "embedding timeout triggered keyword fallback")
  search_with config q (threw what) =
      keyword_fallback backend config q q.trace_id (bytes "embedding task failed: " ++ what)
  search_with config q (answered (status st)) =
      if is_empty q.query
      then status st
      else keyword_fallback backend config q q.trace_id (to_string st)
  search_with config q (answered (value embedding)) = search_by_embedding config q embedding

  -- Search(query), with EmbedImage and EmbedText.
  unfoldable pub semantic_search :
      SearchConfig
      → (embed_image embed_text : Bytes → EmbeddingOutcome Float) → SemanticSearchQuery
      → StatusOr (SemanticSearchResult Double)
  semantic_search config embed_image embed_text q =
      if is_empty q.query && is_empty q.image_reference
      then status (invalid_argument (bytes "query or image_reference cannot be empty"))
      else search_with config q
          (if is_empty q.image_reference then embed_text q.query else embed_image q.image_reference)

-- The counters of MetricsRegistry that the report shows.
pub record SearchCounters : Type 0 where
  pub search_requests : ℕ
  pub search_failures : ℕ
  pub degraded_searches : ℕ
  pub http_requests : ℕ

pub record HealthReport : Type 0 where
  pub trace_id : Bytes
  pub status_text : Bytes
  pub version : Bytes
  pub warnings : List Bytes
  pub details : Map Bytes

abbrev pub warning_if : Bool → Bytes → List Bytes
warning_if b text = if b then text ∷ [] else []

abbrev pub ai_warning : Bytes
ai_warning =
    bytes
      "deterministic embedding fallback enabled; configure ONNX adapter before production rollout"

abbrev pub search_warning : Bytes
search_warning =
    bytes "brute-force vector index enabled; configure FAISS adapter before production rollout"

abbrev pub storage_warning : Bytes
storage_warning =
    bytes "local WAL store enabled; configure RocksDB adapter before production rollout"

-- HealthCheck(trace_id)
unfoldable pub health_check : SearchConfig → SearchCounters → Bytes → HealthReport
health_check config metrics trace = record {
  trace_id = trace;
  status_text = bytes "SERVING";
  version = bytes "0.1.0";
  warnings =
      warning_if (bytes_eq config.ai_backend (bytes "deterministic")) ai_warning
      ++ (warning_if (bytes_eq config.search_backend (bytes "brute_force")) search_warning
          ++ warning_if (bytes_eq config.storage_backend (bytes "wal")) storage_warning);
  details = emplace (bytes "http_requests_total") (to_decimal metrics.http_requests) (
      emplace (bytes "degraded_search_total") (to_decimal metrics.degraded_searches) (
        emplace (bytes "search_failures_total") (to_decimal metrics.search_failures) (
          emplace (bytes "search_requests_total") (to_decimal metrics.search_requests) (
            emplace (bytes "search_backend") config.search_backend (
              emplace (bytes "storage_backend") config.storage_backend
                (emplace (bytes "ai_backend") config.ai_backend []))))));
}
