-- ===== src/Semantic/Ranking.antt =====
-- KeywordFallback of src/gateway/semantic_search_service.cpp against a ranking of the documents by how
-- much of the query they contain.
use range_vec_kv.Base.{
  min, max, ◌||◌, ◌==◌, ℕ, ◌≡◌, refl, ap, ◌∙◌, sym, ◌+◌, ◌*◌, ltb, Bool, true, false, ◌&&◌, Option,
  none, some, List, [], ◌∷◌, ◌++◌, map, take, All, if◌then◌else◌, arith, Bool-cases, inl, inr,
}
use range_vec_kv.Base.Bytes.{
  Bytes, bytes, bytes_eq, bytes_lt, bytes_lt_trans, bytes_lt_asym, bytes_lt-total, bytes_eq_comm,
  bytes_eq→eq,
}
use range_vec_kv.Base.Ordered.{IsTop, cut-take, take-IsTop}
use range_vec_kv.OrderedMap.{find}
use range_vec_kv.Status.{StatusOr, value}
use range_vec_kv.Document.{DocumentRecord}
use range_vec_kv.Document.Mutation.{is_empty}
use range_vec_kv.VectorIndex.{SearchFilter, matches_filter}
use range_vec_kv.VectorIndex.Ranked.{all_hold}
use range_vec_kv.Semantic.Text.{
  to_lower, push_token, tokenize, tokenize_loop, is_alnum, text_contains,
}
use range_vec_kv.Semantic.Fallback.{
  GatewayFilter, SemanticSearchQuery, SearchConfig, SearchBackend, SemanticSearchResult,
  matches_gateway_filters, score_tokens, keyword_score, rank_loop, ranks_before, stable_sort,
  keyword_hit, fallback_result, keyword_fallback, effective_collection,
}
use range_vec_kv.Semantic.Search.{convert_filters}
use range_vec_kv.Semantic.Sorting.{stable_sort-IsSorting}
use mathlib.Core.Path.{fun_ext}

-- How many of the tokens the text contains.
unfoldable pub occurring : Bytes → List Bytes → ℕ
occurring text [] = 0
occurring text (token ∷ tokens) =
    (if text_contains text token then 1 else 0) + occurring text tokens

-- Five points for the whole query, three for each token in the title, one for each in the body; the
-- case of letters does not count.
abbrev pub relevance : Bytes → DocumentRecord → ℕ
relevance query r =
    let title = to_lower r.title in
    let body = to_lower r.body in
    (if text_contains (title ++ bytes " " ++ body) (to_lower query) then 5 else 0)
    + (3 * occurring title (tokenize query) + occurring body (tokenize query))

-- The documents on which all filters hold and that contain something of the query.
unfoldable pub relevant :
    Bytes → List SearchFilter → List DocumentRecord → List (ℕ × DocumentRecord)
relevant query filters [] = []
relevant query filters (r ∷ rest) =
    if all_hold r.metadata filters && ltb 0 (relevance query r)
    then (relevance query r, r) ∷ relevant query filters rest
    else relevant query filters rest

abbrev IsToken : Bytes → Type 0
IsToken token = is_empty token ≡ false

tokenize_loop-All : (current rest : Bytes) → All IsToken (tokenize_loop current rest)
unfolding tokenize_loop
tokenize_loop-All [] [] = tt
tokenize_loop-All (c ∷ current) [] = (refl, tt)
tokenize_loop-All current (ch ∷ rest) = elim (Bool-cases (is_alnum ch)) [
  | inl e ↦ rw e (tokenize_loop-All (current ++ ch ∷ []) rest)
  | inr e ↦ rw e (pushed current (tokenize_loop-All [] rest))
]
  where
    pushed :
        (c : Bytes)
        → All IsToken (tokenize_loop [] rest)
        → All IsToken (push_token c (tokenize_loop [] rest))
    pushed [] h = h
    pushed (c ∷ cs) h = (refl, h)

score_tokens-occurring :
    (title body : Bytes) (tokens : List Bytes) (score : ℕ)
    → All IsToken tokens
    → score_tokens title body tokens score
      ≡ score + (3 * occurring title tokens + occurring body tokens)
unfolding score_tokens occurring
score_tokens-occurring title body [] score h = omega arith
score_tokens-occurring title body (token ∷ tokens) score h = rw h.0 (
    score_tokens-occurring title body tokens _ h.1
    ∙ sums (text_contains title token) (text_contains body token))
  where
    sums :
        (b c : Bool)
        → ((score + (if b then 3 else 0)) + (if c then 1 else 0))
            + (3 * occurring title tokens + occurring body tokens)
          ≡ score
            + (3 * ((if b then 1 else 0) + occurring title tokens)
                + ((if c then 1 else 0) + occurring body tokens))
    sums true true = omega arith
    sums true false = omega arith
    sums false true = omega arith
    sums false false = omega arith

keyword_score-relevance :
    (query : Bytes) (r : DocumentRecord) → keyword_score query r ≡ relevance query r
unfolding keyword_score tokenize
keyword_score-relevance query r =
    score_tokens-occurring (to_lower r.title) (to_lower r.body) (tokenize query) _
      (tokenize_loop-All [] (to_lower query))

matches_gateway_filters-all_hold :
    (r : DocumentRecord) (fs : List GatewayFilter)
    → matches_gateway_filters r fs ≡ all_hold r.metadata (convert_filters fs)
unfolding matches_gateway_filters all_hold convert_filters matches_filter
matches_gateway_filters-all_hold r [] = refl
matches_gateway_filters-all_hold r (f ∷ fs) =
    by_field (find f.field r.metadata) (matches_gateway_filters-all_hold r fs)
  where
    by_field :
        (o : Option Bytes)
        → matches_gateway_filters r fs ≡ all_hold r.metadata (convert_filters fs)
        → (elim o as (λ y. Bool) [
          | none ↦ false
          | some v ↦ if bytes_eq v f.wanted_value then matches_gateway_filters r fs else false
        ])
          ≡ ((elim o as (λ y. Bool) [ none ↦ false | some v ↦ bytes_eq v f.wanted_value ])
              && all_hold r.metadata (convert_filters fs))
    by_field none h = refl
    by_field (some v) h = ground arith

rank_loop-relevant :
    (query : Bytes) (fs : List GatewayFilter) (rs : List DocumentRecord)
    → rank_loop query fs rs ≡ relevant query (convert_filters fs) rs
unfolding rank_loop relevant
rank_loop-relevant query fs [] = refl
rank_loop-relevant query fs (r ∷ rs) =
    rw
      (
        keyword_score-relevance query r,
        matches_gateway_filters-all_hold r fs,
        rank_loop-relevant query fs rs,
      )
      (by_tests (all_hold r.metadata (convert_filters fs)) (ltb 0 (relevance query r)))
  where
    by_tests :
        (b c : Bool)
        → (if b
            then (if c
                then (relevance query r, r) ∷ relevant query (convert_filters fs) rs
                else relevant query (convert_filters fs) rs)
            else relevant query (convert_filters fs) rs)
          ≡ (if b && c
              then (relevance query r, r) ∷ relevant query (convert_filters fs) rs
              else relevant query (convert_filters fs) rs)
    by_tests true c = refl
    by_tests false c = refl

bytes_lt_weak : (a b c : Bytes) → bytes_lt b a ≡ false → bytes_lt c b ≡ false → bytes_lt c a ≡ false
bytes_lt_weak a b c h k = elim (Bool-cases (bytes_lt c a)) [
  | inr e ↦ e
  | inl e ↦ elim (Bool-cases (bytes_eq a b)) [
    | inl q ↦ absurd (same e (bytes_eq→eq a b q))
    | inr q ↦
        absurd
          (ground (arith, bytes_lt_trans c a b e (bytes_lt-total b a (bytes_eq_comm b a ∙ q) h)))
  ]
]
  where
    same : bytes_lt c a ≡ true → a ≡ b → ⊥
    same e q = ground (arith, sym (ap (bytes_lt c) q) ∙ e)

-- The more relevant document goes first, and of two that are as relevant the one with the lower key.
unfoldable pub precedes : ℕ × DocumentRecord → ℕ × DocumentRecord → Bool
precedes (s, r) (t, q) = ltb t s || (s == t && bytes_lt r.key q.key)

precedes_asym : (x y : ℕ × DocumentRecord) → precedes x y ≡ true → precedes y x ≡ false
unfolding precedes
precedes_asym (s, r) (t, q) h = ground (arith, bytes_lt_asym r.key q.key)

precedes_weak :
    (x y z : ℕ × DocumentRecord)
    → precedes y x ≡ false
    → precedes z y ≡ false
    → precedes z x ≡ false
unfolding precedes
precedes_weak (s, r) (t, q) (u, p) h k = ground (arith, bytes_lt_weak r.key q.key p.key)

ranks_before-precedes : ranks_before ≡ precedes
unfolding ranks_before precedes
ranks_before-precedes = fun_ext (λ x. fun_ext (λ y. same x y))
  where
    same : (x y : ℕ × DocumentRecord) → ranks_before x y ≡ precedes x y
    same (s, r) (t, q) = ground arith

module _ {Float Double : Type 0} (backend : SearchBackend Float Double) where
  -- Where Range, asked for at most 1000 documents, returns `documents`, KeywordFallback answers, marked
  -- as degraded, with those of them on which all filters hold and that contain something of the query:
  -- the most relevant first, by key among equals, as many as top_k asks for, but one for a top_k of
  -- zero and at most max_top_k, and all if they are fewer. None of them that was left out goes before
  -- one that was taken.
  pub keyword_fallback-IsTop :
      (config : SearchConfig) (q : SemanticSearchQuery) (trace reason : Bytes)
      (documents : List DocumentRecord)
      → backend.range (effective_collection config q) [] [] 1000 ≡ value documents
      → (ranked : List (ℕ × DocumentRecord)) × (keyword_fallback backend config q trace reason
          ≡ value (record {
            trace_id = trace;
            hits = map (keyword_hit backend q.query) ranked;
            degraded = true;
            message = bytes "keyword fallback: " ++ reason;
          }))
        × IsTop precedes
            (min (max 1 q.top_k) config.max_top_k)
            (relevant q.query (convert_filters q.filters) documents)
            ranked
  unfolding keyword_fallback fallback_result
  keyword_fallback-IsTop config q trace reason documents read = (
    take k sorted,
    rw
        (
          keyword_fallback,
          read,
          ranks_before-precedes,
          rank_loop-relevant q.query q.filters documents,
        )
        (ap answer (cut-take k sorted)),
    take-IsTop precedes k all sorted
        (stable_sort-IsSorting precedes precedes_asym precedes_weak all),
  )
    where
      k : ℕ
      k = min (max 1 q.top_k) config.max_top_k

      all : List (ℕ × DocumentRecord)
      all = relevant q.query (convert_filters q.filters) documents

      sorted : List (ℕ × DocumentRecord)
      sorted = stable_sort precedes all

      answer : List (ℕ × DocumentRecord) → StatusOr (SemanticSearchResult Double)
      answer ranked = value (record {
        trace_id = trace;
        hits = map (keyword_hit backend q.query) ranked;
        degraded = true;
        message = bytes "keyword fallback: " ++ reason;
      })
