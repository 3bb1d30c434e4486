-- ===== src/OrderedMap.antt =====
-- `std::map<std::string, V>`, which the source uses for documents, metadata, pending work and
-- sets of keys: the entries in ascending key order. The laws are in the modules below.
pub mod Laws
pub mod Sorted
pub mod Fold
pub mod Lengths
pub mod Middle
use range_vec_kv.Base.{Option, none, some, List, [], ◌∷◌, if◌then◌else◌}
use range_vec_kv.Base.Bytes.{Bytes, bytes_eq, bytes_lt}

abbrev pub Map {ℓ} : Type ℓ → Type ℓ
Map V = List (Bytes × V)

module _ {ℓ} {V : Type ℓ} where
  -- m.find(k)
  unfoldable pub find : Bytes → Map V → Option V
  find k [] = none
  find k ((j, v) ∷ m) = if bytes_eq k j then some v else find k m

  -- m[k] = v
  unfoldable pub insert_or_assign : Bytes → V → Map V → Map V
  insert_or_assign k v [] = (k, v) ∷ []
  insert_or_assign k v ((j, w) ∷ m) =
      if bytes_eq k j
      then (k, v) ∷ m
      else if bytes_lt k j
      then (k, v) ∷ (j, w) ∷ m
      else (j, w) ∷ insert_or_assign k v m

  -- m.erase(k)
  unfoldable pub erase : Bytes → Map V → Map V
  erase k [] = []
  erase k ((j, w) ∷ m) = if bytes_eq k j then erase k m else (j, w) ∷ erase k m

  -- m.emplace(k, v), which leaves an entry that is there
  unfoldable pub emplace : Bytes → V → Map V → Map V
  unfolding find
  emplace k v m = elim (find k m) [ none ↦ insert_or_assign k v m | some w ↦ m ]

  -- The entries from m.lower_bound(k) on.
  unfoldable pub lower_bound : Bytes → Map V → Map V
  lower_bound k [] = []
  lower_bound k ((j, w) ∷ m) = if bytes_lt j k then lower_bound k m else (j, w) ∷ m

  -- The values in iteration order.
  unfoldable pub values : Map V → List V
  values [] = []
  values ((j, w) ∷ m) = w ∷ values m

  unfoldable pub keys : Map V → List Bytes
  keys [] = []
  keys ((j, w) ∷ m) = j ∷ keys m
