-- ===== src/VectorIndex/Ranked.antt =====
-- Search of PersistentVectorIndex (src/search/vector_index.cpp): the best matches, best first.
use range_vec_kv.Base.{
  ℕ, ◌≡◌, refl, ap, Bool, true, false, not, ◌&&◌, ◌||◌, List, [], ◌∷◌, map, take, if◌then◌else◌,
  arith, Bool-cases, inl, inr,
}
use range_vec_kv.Base.Bytes.{Bytes, bytes_eq}
use range_vec_kv.Base.Ordered.{IsSorting, IsTop, cut-take, take-IsTop}
use range_vec_kv.OrderedMap.{Map, values}
use range_vec_kv.Status.{value}
use range_vec_kv.Document.Mutation.{is_empty}
use range_vec_kv.VectorIndex.{
  SearchFilter, SearchReference, Library, VectorEntry, VectorIndex, matches_filter, matches_filters,
  reference_to, collect_matches, higher, search,
}

-- Every field has the value that its filter expects.
unfoldable pub all_hold : Map Bytes → List SearchFilter → Bool
all_hold metadata [] = true
all_hold metadata (f ∷ fs) = matches_filter metadata f && all_hold metadata fs

module _ {Float : Type 0} where
  -- The entries of the collection on which all filters hold, in key order.
  unfoldable pub wanted :
      Bytes → List SearchFilter → List (VectorEntry Float) → List (VectorEntry Float)
  wanted collection filters [] = []
  wanted collection filters (e ∷ es) =
      if bytes_eq e.document.collection collection && all_hold e.document.metadata filters
      then e ∷ wanted collection filters es
      else wanted collection filters es

  matches_filters-all_hold :
      (e : VectorEntry Float) (fs : List SearchFilter)
      → matches_filters e fs ≡ all_hold e.document.metadata fs
  unfolding matches_filters all_hold
  matches_filters-all_hold e [] = refl
  matches_filters-all_hold e (f ∷ fs) = ground (arith, matches_filters-all_hold e fs)

module _ {Float Double : Type 0} (lib : Library Float Double) where
  collect_matches-wanted :
      (c : Bytes) (query : List Float) (fs : List SearchFilter) (es : List (VectorEntry Float))
      → collect_matches lib c query fs es ≡ map (reference_to lib query) (wanted c fs es)
  unfolding collect_matches wanted
  collect_matches-wanted c query fs [] = refl
  collect_matches-wanted c query fs (e ∷ es) =
      elim (Bool-cases (bytes_eq e.document.collection c)) [
        | inl p ↦
            rw (p, matches_filters-all_hold e fs)
              (by_filters (all_hold e.document.metadata fs) (collect_matches-wanted c query fs es))
        | inr p ↦ rw p (collect_matches-wanted c query fs es)
      ]
    where
      by_filters :
          (b : Bool)
          → collect_matches lib c query fs es ≡ map (reference_to lib query) (wanted c fs es)
          → (if false || not b
              then collect_matches lib c query fs es
              else reference_to lib query e ∷ collect_matches lib c query fs es)
            ≡ map
                (reference_to lib query)
                (if true && b then e ∷ wanted c fs es else wanted c fs es)
      by_filters true q = ap (λ l. reference_to lib query e ∷ l) q
      by_filters false q = q

  -- What a search for the best `top_k` of the references `all` answers.
  abbrev pub IsBest : ℕ → (all hits : List (SearchReference Double)) → Type 0
  IsBest top_k all hits = IsTop (higher lib) top_k all hits

  -- Search with a query that is not empty answers with references to the entries of the collection
  -- on which all filters hold, each entry once: `top_k` of them, or all if they are fewer, none of
  -- which is followed by one with a higher score, or is lower than one that was left out. The score is
  -- that of CosineSimilarity. It is assumed that std::sort keeps its promise in this call.
  pub search-IsBest :
      (collection : Bytes) (query : List Float) (filters : List SearchFilter) (top_k : ℕ)
      (s : VectorIndex Float)
      → let all = map (reference_to lib query) (wanted collection filters (values s.entries)) in
        is_empty query ≡ false
        → IsSorting (higher lib) all (lib.sort (higher lib) all)
        → (hits : List (SearchReference Double)) × (search lib collection query filters top_k s
            ≡ value hits)
          × IsBest top_k all hits
  unfolding search
  search-IsBest c query fs k s full sorting = (
    take k sorted,
    rw (full, collect_matches-wanted c query fs (values s.entries)) (ap value (cut-take k sorted)),
    take-IsTop (higher lib) k all sorted sorting,
  )
    where
      all : List (SearchReference Double)
      all = map (reference_to lib query) (wanted c fs (values s.entries))

      sorted : List (SearchReference Double)
      sorted = lib.sort (higher lib) all
