-- ===== src/Examples/Vectors.antt =====
-- A vector index over natural numbers at which the theorems about search and snapshot are applied.
use range_vec_kv.Base.{
  ℕ, ◌≡◌, ap, ◌∙◌, ◌+◌, ◌*◌, refl, ltb, ltb→lt, ◌^◌, Bool, Option, none, some, List, [], ◌∷◌, ◌++◌,
  map, length, take, drop, take-append, drop-append, if◌then◌else◌,
}
use range_vec_kv.Base.Bytes.{Bytes, bytes, bytes_eq, bytes_lt}
use range_vec_kv.OrderedMap.{find, insert_or_assign, values}
use range_vec_kv.Status.{value, ok_status, returned}
use range_vec_kv.Document.{key_of}
use range_vec_kv.Codec.{ProtoDocument, to_proto}
use range_vec_kv.VectorIndex.{
  SearchFilter, SearchReference, Library, ProtoVectorEntry, EntryFormat, VectorIndex, new_index,
  reference_to, search, flush_index, recover_index, matches_filter, cosine_similarity, dot_product,
}
use range_vec_kv.VectorIndex.Ranked.{IsBest, wanted, all_hold, search-IsBest}
use range_vec_kv.VectorIndex.Snapshot.{
  EntryFormatLaws, IndexCall, upserts, removes, call_all, recover_index-flush_index,
}
use range_vec_kv.Examples.Format.{serialize_document, parse_document, parse-serialize_document}
use range_vec_kv.Examples.Stores.{apple, banana, working_io, working_io-IsWorking}
use mathlib.Core.List.{Permᴰ}

module _ {A : Type 0} (before : A → A → Bool) where
  unfoldable pub insert : A → List A → List A
  insert x [] = x ∷ []
  insert x (y ∷ ys) = if before x y then x ∷ y ∷ ys else y ∷ insert x ys

  unfoldable pub insertion_sort : List A → List A
  unfolding insert
  insertion_sort [] = []
  insertion_sort (x ∷ xs) = insert x (insertion_sort xs)

abbrev pub naturals : Library ℕ ℕ
naturals = record {
  widen = λ x. x;
  zero_double = 0;
  minus_one = 0;
  plus = λ x y. x + y;
  times = λ x y. x * y;
  greater = λ x y. ltb y x;
  stof = λ b. returned (length b);
  sort = λ before xs. insertion_sort before xs;
}

abbrev joined : Option ProtoDocument → List ℕ → Option (ProtoVectorEntry ℕ)
joined none vector = none
joined (some d) vector = some (record { document = d; vector = vector })

parse_numbers : Bytes → Option (ProtoVectorEntry ℕ)
parse_numbers [] = none
parse_numbers (n ∷ rest) = joined (parse_document (take n rest)) (drop n rest)

serialize_numbers : ProtoVectorEntry ℕ → Bytes
serialize_numbers p =
    length (serialize_document p.document) ∷ (serialize_document p.document ++ p.vector)

parse-serialize_numbers : (p : ProtoVectorEntry ℕ) → parse_numbers (serialize_numbers p) ≡ some p
unfolding parse_numbers serialize_numbers
parse-serialize_numbers p =
    ap (λ t. joined (parse_document t) (drop (length text) (text ++ p.vector)))
      (take-append text p.vector)
    ∙ ap (joined (parse_document text)) (drop-append text p.vector)
    ∙ ap (λ d. joined d p.vector) (parse-serialize_document p.document)
  where
    text : Bytes
    text = serialize_document p.document

abbrev number_format : EntryFormat ℕ
number_format = record { serialize_entry = serialize_numbers; parse_entry = parse_numbers }

abbrev number_format_laws : EntryFormatLaws number_format
number_format_laws = record {
  entry_fits = λ p. ltb (length (serialize_numbers p)) (2 ^ 31);
  parse_entry-serialize_entry = λ p h. parse-serialize_numbers p;
  length-serialize_entry = λ p h. ltb→lt (length (serialize_numbers p)) (2 ^ 31) h;
}

abbrev two_vectors : List (IndexCall ℕ)
two_vectors =
    upserts apple (1 ∷ 2 ∷ [])
    ∷ upserts banana (3 ∷ 4 ∷ [])
    ∷ upserts apple (2 ∷ 2 ∷ [])
    ∷ removes (bytes "docs") (bytes "c")
    ∷ []

recover_index-flush_index_example :
    let s = call_all two_vectors (new_index none) in
    let (st, t) = flush_index number_format working_io s in
    (st ≡ ok_status)
    × (t.entries ≡ s.entries)
    × (recover_index naturals number_format working_io (new_index t.file) ≡ returned (ok_status, t))
unfolding serialize_numbers serialize_document to_proto insert_or_assign bytes_eq bytes_lt
recover_index-flush_index_example =
    recover_index-flush_index number_format number_format_laws naturals working_io working_io
      two_vectors none working_io-IsWorking working_io-IsWorking
      (
        record { sorted = ((refl, tt), (tt, tt)); fits = refl },
        (
          record { sorted = ((refl, tt), (tt, tt)); fits = refl },
          (record { sorted = ((refl, tt), (tt, tt)); fits = refl }, (tt, tt)),
        ),
      )

abbrev pub filled : VectorIndex ℕ
filled = record {
  entries =
      (key_of apple, record { document = apple; vector = 1 ∷ 2 ∷ [] })
      ∷ (key_of banana, record { document = banana; vector = 3 ∷ 4 ∷ [] })
      ∷ [];
  file = none;
}

abbrev in_cpp : List SearchFilter
in_cpp = record { field = bytes "lang"; expected = bytes "cpp" } ∷ []

search-IsBest_example :
    let all =
      map
        (reference_to naturals (1 ∷ 1 ∷ []))
        (wanted (bytes "docs") in_cpp (values filled.entries)) in
    (hits : List (SearchReference ℕ)) × (search naturals (bytes "docs") (1 ∷ 1 ∷ []) in_cpp 1 filled
      ≡ value hits)
    × IsBest naturals 1 all hits
unfolding wanted all_hold matches_filter values find bytes_eq cosine_similarity dot_product
    insertion_sort insert
search-IsBest_example =
    search-IsBest naturals (bytes "docs") (1 ∷ 1 ∷ []) in_cpp 1 filled refl
      (record { permutes = Permᴰ.swap refl refl; ordered = ((refl, tt), (tt, tt)) })
