-- ===== src/Examples/Searches.antt =====
-- Searches by embedding and by keywords at which their theorems are applied.
use range_vec_kv.Base.{ℕ, ◌≡◌, refl, true, false, List, [], ◌∷◌, ◌++◌, map, take, All, arith}
use range_vec_kv.Base.Bytes.{Bytes, bytes, bytes_eq, bytes_lt}
use range_vec_kv.Base.Ordered.{IsTop}
use range_vec_kv.OrderedMap.{find, values}
use range_vec_kv.Status.{value}
use range_vec_kv.Document.{DocumentRecord, key_of, build_composite_key}
use range_vec_kv.WalStore.{WalStore, multi_get}
use range_vec_kv.VectorIndex.{
  SearchReference, search, collect_matches, matches_filters, matches_filter, cosine_similarity,
  dot_product,
}
use range_vec_kv.Semantic.{
  SemanticSearchQuery, SearchConfig, SearchHit, Embedding, answered, timed_out, keyword_hit,
  keyword_fallback, convert_filters, semantic_search, semantic_hits, tokenize, tokenize_loop,
  to_lower, to_lower_byte, is_alnum,
}
use range_vec_kv.Semantic.Ranking.{precedes, relevant}
use range_vec_kv.Semantic.Stored.{keyword_fallback-select}
use range_vec_kv.Scan.Select.{IsPlaced, select}
use range_vec_kv.Document.Keys.{IsPlain}
use range_vec_kv.Semantic.Scores.{address, wal_backend, scored, scored_hit, semantic_search-scores}
use range_vec_kv.Examples.Stores.{apple, banana}
use range_vec_kv.Examples.Vectors.{naturals, filled, insert, insertion_sort}
use range_vec_kv.Durability.Run.{empty_disk}

abbrev defaults : SearchConfig
defaults = record {
  default_collection = bytes "docs";
  max_top_k = 50;
  ai_backend = bytes "auto";
  storage_backend = bytes "wal";
  search_backend = bytes "auto";
}

abbrev about : Bytes → SemanticSearchQuery
about text = record {
  trace_id = bytes "t";
  collection = [];
  query = text;
  image_reference = [];
  top_k = 1;
  filters = record { field = bytes "lang"; wanted_value = bytes "cpp" } ∷ [];
}

-- The tokens and the snippet of a search.
tokenize_test : tokenize (bytes "Red-Wine, 75cl") ≡ bytes "red" ∷ bytes "wine" ∷ bytes "75cl" ∷ []
unfolding tokenize tokenize_loop to_lower to_lower_byte is_alnum
tokenize_test = refl

abbrev pub fruits : WalStore
fruits = record {
  records = (key_of apple, apple) ∷ (key_of banana, banana) ∷ [];
  disk = empty_disk;
}

pub docs-IsPlain : IsPlain (bytes "docs")
docs-IsPlain = (
  (λ e. omega (arith, e)),
  ((λ e. omega (arith, e)), ((λ e. omega (arith, e)), ((λ e. omega (arith, e)), tt))),
)

fruits-IsPlaced : All IsPlaced fruits.records
fruits-IsPlaced = ((refl, docs-IsPlain), ((refl, docs-IsPlain), tt))

keyword_fallback-select_example :
    let backend = wal_backend naturals (λ n. n) fruits filled in
    (ranked : List (ℕ × DocumentRecord)) × (keyword_fallback backend defaults
        (about (bytes "red banana"))
        (bytes "t")
        (bytes "no")
      ≡ value (record {
        trace_id = bytes "t";
        hits = map (keyword_hit backend (bytes "red banana")) ranked;
        degraded = true;
        message = bytes "keyword fallback: " ++ bytes "no";
      }))
    × IsTop precedes 1
        (relevant
          (bytes "red banana")
          (convert_filters (about (bytes "red banana")).filters)
          (take 1000 (select (bytes "docs") [] (0x7f ∷ []) fruits.records)))
        ranked
unfolding bytes_lt build_composite_key
keyword_fallback-select_example =
    keyword_fallback-select naturals (λ n. n) fruits filled defaults (about (bytes "red banana"))
      (bytes "t") (bytes "no") docs-IsPlain fruits-IsPlaced ((refl, tt), (tt, tt))

abbrev only_banana : WalStore
only_banana = record fruits { records = (key_of banana, banana) ∷ [] }

abbrev one_embedding : Embedding ℕ
one_embedding = record { vector = 1 ∷ 1 ∷ []; backend = bytes "test"; degraded = false }

abbrev to_fruit : Bytes → ℕ → SearchReference ℕ
to_fruit key score = record {
  collection = bytes "docs";
  key = key;
  score = score;
  metadata = apple.metadata;
}

semantic_search-scores_example :
    (hits : List (SearchHit ℕ)) × (semantic_search
        (wal_backend naturals (λ n. n) fruits filled)
        defaults
        (λ path. timed_out)
        (λ text. answered (value one_embedding))
        (about (bytes "red"))
      ≡ value (record {
        trace_id = bytes "t";
        hits = hits;
        degraded = false;
        message = bytes "semantic search completed";
      }))
    × (map scored_hit hits ≡ map scored (to_fruit (bytes "b") 7 ∷ []))
unfolding search find bytes_eq bytes_lt build_composite_key insertion_sort insert values
    collect_matches matches_filters matches_filter cosine_similarity dot_product convert_filters
semantic_search-scores_example =
    semantic_search-scores naturals (λ n. n) fruits filled defaults (λ path. timed_out)
      (λ text. answered (value one_embedding)) (about (bytes "red")) one_embedding
      (to_fruit (bytes "b") 7 ∷ []) refl refl refl
      (record { document = banana; found = refl; same_key = refl }, tt)

-- Of a document that the store has not, the score goes to the next hit.
missing_document_test :
    let references = to_fruit (bytes "a") 9 ∷ to_fruit (bytes "b") 7 ∷ [] in
    map scored_hit (
      semantic_hits
        (wal_backend naturals (λ n. n) only_banana filled)
        (bytes "red")
        (multi_get only_banana (map address references))
        references)
    ≡ (bytes "b", 9) ∷ []
unfolding semantic_hits multi_get find bytes_eq build_composite_key
missing_document_test = refl
