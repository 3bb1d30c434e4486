-- ===== src/Semantic/Fallback.antt =====
-- The requests and results of src/gateway/service_types.h, and KeywordFallback of
-- src/gateway/semantic_search_service.cpp.
use range_vec_kv.Base.{
  ℕ, ◌+◌, ◌==◌, min, max, ltb, Bool, true, false, none, some, List, [], ◌∷◌, ◌++◌, map, length,
  take, if◌then◌else◌,
}
use range_vec_kv.Base.Bytes.{Bytes, bytes, bytes_eq, bytes_lt}
use range_vec_kv.OrderedMap.{Map, find}
use range_vec_kv.Status.{StatusOr, value, status}
use range_vec_kv.Document.{DocumentRecord}
use range_vec_kv.Document.Mutation.{is_empty}
use range_vec_kv.VectorIndex.{SearchFilter, SearchReference}
use range_vec_kv.Semantic.Text.{to_lower, tokenize, text_contains, build_snippet}

-- gateway::SearchFilter
pub record GatewayFilter : Type 0 where
  pub field : Bytes
  pub wanted_value : Bytes

pub record SemanticSearchQuery : Type 0 where
  pub trace_id : Bytes
  pub collection : Bytes
  pub query : Bytes
  pub image_reference : Bytes
  pub top_k : ℕ
  pub filters : List GatewayFilter

pub record SearchHit (Double : Type 0) : Type 0 where
  pub key : Bytes
  pub title : Bytes
  pub snippet : Bytes
  pub score : Double
  pub metadata : Map Bytes

pub record SemanticSearchResult (Double : Type 0) : Type 0 where
  pub trace_id : Bytes
  pub hits : List (SearchHit Double)
  pub degraded : Bool
  pub message : Bytes

-- The fields of ServerConfig that the service reads, less the time limit of the embedding.
pub record SearchConfig : Type 0 where
  pub default_collection : Bytes
  pub max_top_k : ℕ
  pub ai_backend : Bytes
  pub storage_backend : Bytes
  pub search_backend : Bytes

-- What the service calls: MultiGet and Range of the store (of a reference, MultiGet reads collection
-- and key), Search of the vector index, and the `double` of a small natural number, which is exact.
pub record SearchBackend (Float Double : Type 0) : Type 0 where
  pub multi_get : List (SearchReference Double) → StatusOr (List DocumentRecord)
  pub range : Bytes → Bytes → Bytes → ℕ → StatusOr (List DocumentRecord)
  pub search_index :
      Bytes → List Float → List SearchFilter → ℕ → StatusOr (List (SearchReference Double))
  pub of_natural : ℕ → Double

-- MatchesGatewayFilters(record, filters)
unfoldable pub matches_gateway_filters : DocumentRecord → List GatewayFilter → Bool
matches_gateway_filters r [] = true
matches_gateway_filters r (f ∷ filters) =
    let rest = matches_gateway_filters r filters in
    elim (find f.field r.metadata) [
      | none ↦ false
      | some v ↦ if bytes_eq v f.wanted_value then rest else false
    ]

abbrev pub effective_collection : SearchConfig → SemanticSearchQuery → Bytes
effective_collection config q =
    if is_empty q.collection then config.default_collection else q.collection

abbrev pub effective_top_k : SearchConfig → SemanticSearchQuery → ℕ
effective_top_k config q = min (max 1 q.top_k) config.max_top_k

-- The loop over the tokens of the query.
unfoldable pub score_tokens : Bytes → Bytes → List Bytes → ℕ → ℕ
score_tokens title body [] score = score
score_tokens title body (token ∷ rest) score =
    if is_empty token
    then score_tokens title body rest score
    else score_tokens title body rest (
        (score + (if text_contains title token then 3 else 0))
        + (if text_contains body token then 1 else 0))

-- The score of a document. Each step adds 1, 3 or 5, which `double` represents.
unfoldable pub keyword_score : Bytes → DocumentRecord → ℕ
keyword_score query r =
    let title = to_lower r.title in
    let body = to_lower r.body in
    score_tokens title body (tokenize query)
      (if text_contains (title ++ bytes " " ++ body) (to_lower query) then 5 else 0)

-- The loop over the documents.
unfoldable pub rank_loop :
    Bytes → List GatewayFilter → List DocumentRecord → List (ℕ × DocumentRecord)
rank_loop query filters [] = []
rank_loop query filters (r ∷ rest) =
    let ranked = rank_loop query filters rest in
    if matches_gateway_filters r filters
    then (if ltb 0 (keyword_score query r) then (keyword_score query r, r) ∷ ranked else ranked)
    else ranked

-- The comparison of the sort.
unfoldable pub ranks_before : ℕ × DocumentRecord → ℕ × DocumentRecord → Bool
ranks_before (s, r) (t, q) = if s == t then bytes_lt r.key q.key else ltb t s

-- std::stable_sort: an element goes before the first that is not ahead of it.
module _ {A : Type 0} (before : A → A → Bool) where
  unfoldable pub insert_stable : A → List A → List A
  insert_stable x [] = x ∷ []
  insert_stable x (y ∷ ys) =
      let later = insert_stable x ys in if before y x then y ∷ later else x ∷ y ∷ ys

  unfoldable pub stable_sort : List A → List A
  stable_sort [] = []
  stable_sort (x ∷ xs) = insert_stable x (stable_sort xs)

module _ {Float Double : Type 0} (backend : SearchBackend Float Double) where
  abbrev pub keyword_hit : Bytes → ℕ × DocumentRecord → SearchHit Double
  keyword_hit query (s, r) = record {
    key = r.key;
    title = r.title;
    snippet = build_snippet r.body query;
    score = backend.of_natural s;
    metadata = r.metadata;
  }

  -- KeywordFallback(query, trace_id, reason) on the documents that Range returned.
  unfoldable pub fallback_result :
      SearchConfig
      → SemanticSearchQuery
      → Bytes
      → Bytes
      → List DocumentRecord
      → SemanticSearchResult Double
  fallback_result config q trace reason documents =
      let ranked = stable_sort ranks_before (rank_loop q.query q.filters documents) in
      let kept =
        if ltb (effective_top_k config q) (length ranked)
        then take (effective_top_k config q) ranked
        else ranked in
      record {
        trace_id = trace;
        hits = map (keyword_hit q.query) kept;
        degraded = true;
        message = bytes "keyword fallback: " ++ reason;
      }

  unfoldable pub keyword_fallback :
      SearchConfig → SemanticSearchQuery → Bytes → Bytes → StatusOr (SemanticSearchResult Double)
  keyword_fallback config q trace reason =
      elim (backend.range (effective_collection config q) [] [] 1000) [
        | status st ↦ status st
        | value documents ↦ value (fallback_result config q trace reason documents)
      ]
