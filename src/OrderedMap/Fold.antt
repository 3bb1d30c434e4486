-- ===== src/OrderedMap/Fold.antt =====
-- The source's loop `for (const auto& [key, value] : pairs) map[key] = value;`.
use range_vec_kv.Base.{◌≡◌, refl, none, some, List, [], ◌∷◌, inl, inr, Bool-cases, Option}
use range_vec_kv.Base.Bytes.{Bytes, bytes_eq, bytes_eq→eq}
use range_vec_kv.OrderedMap.{Map, find, insert_or_assign}
use range_vec_kv.OrderedMap.Laws.{find-insert_or_assign}
use range_vec_kv.OrderedMap.Sorted.{IsSorted, find-Above, insert_or_assign-IsSorted, map_ext}

module _ {ℓ} {V : Type ℓ} where
  unfoldable pub assign_all : Map V → List (Bytes × V) → Map V
  assign_all m [] = m
  assign_all m ((k, v) ∷ rest) = assign_all (insert_or_assign k v m) rest

  pub assign_all-IsSorted :
      (m : Map V) (xs : List (Bytes × V)) → IsSorted m → IsSorted (assign_all m xs)
  unfolding assign_all
  assign_all-IsSorted m [] s = s
  assign_all-IsSorted m ((k, v) ∷ rest) s =
      assign_all-IsSorted (insert_or_assign k v m) rest (insert_or_assign-IsSorted k v m s)

  abbrev pub or_else : Option V → Option V → Option V
  or_else none d = d
  or_else (some v) d = some v

  pub find-assign_all :
      (j : Bytes) (m xs : Map V)
      → IsSorted xs
      → find j (assign_all m xs) ≡ or_else (find j xs) (find j m)
  unfolding assign_all find
  find-assign_all j m [] s = refl
  find-assign_all j m ((k, v) ∷ rest) s = elim (Bool-cases (bytes_eq j k)) [
    | inl e ↦
        rw (find-assign_all j (insert_or_assign k v m) rest s.1, find-insert_or_assign j k v m, e)
          (rw (bytes_eq→eq j k e, find-Above k rest s.0))
    | inr e ↦
        rw (find-assign_all j (insert_or_assign k v m) rest s.1, find-insert_or_assign j k v m, e)
  ]

  -- Copying a map entry by entry gives the map.
  pub assign_all_self : (m : Map V) → IsSorted m → assign_all [] m ≡ m
  unfolding find
  assign_all_self m s =
      map_ext (assign_all [] m) m (assign_all-IsSorted [] m tt) s
        (λ j. rw (find-assign_all j [] m s) (or_else-none (find j m)))
    where
      or_else-none : (o : Option V) → or_else o none ≡ o
      or_else-none none = refl
      or_else-none (some v) = refl
