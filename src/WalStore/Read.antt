-- ===== src/WalStore/Read.antt =====
-- Get, MultiGet, Range and Collections of WriteAheadKvStore.
use range_vec_kv.Base.{ℕ, suc, leb, not, ◌||◌, none, some, List, [], ◌∷◌, if◌then◌else◌}
use range_vec_kv.Base.Bytes.{Bytes, bytes, bytes_eq, bytes_lt}
use range_vec_kv.OrderedMap.{Map, find, insert_or_assign, lower_bound, keys}
use range_vec_kv.Status.{StatusOr, value, status, not_found}
use range_vec_kv.Document.{DocumentRecord, build_composite_key}
use range_vec_kv.Document.Mutation.{is_empty}
use range_vec_kv.WalStore.State.{WalStore}

-- Get(collection, key)
unfoldable pub get : WalStore → Bytes → Bytes → StatusOr DocumentRecord
get s collection key = elim (find (build_composite_key collection key) s.records) [
  | none ↦ status (not_found (bytes "document not found"))
  | some r ↦ value r
]

-- MultiGet(references): of a reference it reads the collection and the key.
unfoldable pub multi_get : WalStore → List (Bytes × Bytes) → List DocumentRecord
multi_get s [] = []
multi_get s ((collection, key) ∷ rest) =
    let others = multi_get s rest in
    elim (find (build_composite_key collection key) s.records) [
      | none ↦ others
      | some r ↦ r ∷ others
    ]

-- The loop of Range over the entries from the lower bound on, after `taken` results.
unfoldable pub range_loop : Bytes → Bytes → ℕ → ℕ → Map DocumentRecord → List DocumentRecord
range_loop collection finish limit taken [] = []
range_loop collection finish limit taken ((k, r) ∷ rest) =
    let more = r ∷ range_loop collection finish limit (suc taken) rest in
    if bytes_lt finish k || not (bytes_eq r.collection collection)
    then []
    else if leb limit (suc taken)
    then r ∷ []
    else more

-- The key that Range compares with: an empty end key stands for "\x7f".
unfoldable pub range_finish : Bytes → Bytes → Bytes
range_finish collection end_key =
    if is_empty end_key
    then build_composite_key collection (0x7f ∷ [])
    else build_composite_key collection end_key

-- Range(collection, begin_key, end_key, limit)
unfoldable pub range : WalStore → Bytes → Bytes → Bytes → ℕ → List DocumentRecord
unfolding range_loop range_finish
range s collection begin_key end_key limit =
    range_loop collection (range_finish collection end_key) limit 0
      (lower_bound (build_composite_key collection begin_key) s.records)

unfoldable pub collect_names : Map DocumentRecord → Map {0} Unit → Map {0} Unit
collect_names [] names = names
collect_names ((k, r) ∷ rest) names =
    collect_names rest
      (if is_empty r.collection then names else insert_or_assign r.collection tt names)

-- Collections()
unfoldable pub collections : WalStore → List Bytes
unfolding collect_names
collections s = keys (collect_names s.records [])
