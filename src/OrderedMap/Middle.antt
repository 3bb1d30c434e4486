-- ===== src/OrderedMap/Middle.antt =====
-- The entry of a key in the middle of a sorted map.
use range_vec_kv.Base.{◌≡◌, refl, ap, ◌∙◌, true, false, some, [], ◌∷◌, ◌++◌, Bool-cases, inl, inr}
use range_vec_kv.Base.Bytes.{
  Bytes, bytes_eq, bytes_eq_refl, bytes_eq_comm, bytes_lt, bytes_lt→bytes_eq, bytes_lt_asym,
}
use range_vec_kv.OrderedMap.{Map, find, erase, insert_or_assign}
use range_vec_kv.OrderedMap.Sorted.{IsSorted, Above}

module _ {ℓ} {V : Type ℓ} where
  Above-append :
      (j k : Bytes) (v : V) (d m : Map V) → Above j (d ++ (k, v) ∷ m) → bytes_lt j k ≡ true
  Above-append j k v [] m a = a.0
  Above-append j k v ((i, u) ∷ d) m a = Above-append j k v d m a.1

  -- The keys in front of a key are other keys.
  other_key : (j k : Bytes) (v : V) (d m : Map V) → Above j (d ++ (k, v) ∷ m) → bytes_eq k j ≡ false
  other_key j k v d m a = bytes_eq_comm k j ∙ bytes_lt→bytes_eq j k (Above-append j k v d m a)

  pub find-append :
      (k : Bytes) (v : V) (d m : Map V)
      → IsSorted (d ++ (k, v) ∷ m)
      → find k (d ++ (k, v) ∷ m) ≡ some v
  unfolding find
  find-append k v [] m s = rw (bytes_eq_refl k)
  find-append k v ((j, u) ∷ d) m s = rw (other_key j k v d m s.0) (find-append k v d m s.1)

  erase-Above : (k : Bytes) (m : Map V) → Above k m → erase k m ≡ m
  unfolding erase
  erase-Above k [] a = refl
  erase-Above k ((j, u) ∷ m) a =
      rw (bytes_lt→bytes_eq k j a.0) (ap (λ n. (j, u) ∷ n) (erase-Above k m a.1))

  pub erase-append :
      (k : Bytes) (v : V) (d m : Map V)
      → IsSorted (d ++ (k, v) ∷ m)
      → erase k (d ++ (k, v) ∷ m) ≡ d ++ m
  unfolding erase
  erase-append k v [] m s = rw (bytes_eq_refl k) (erase-Above k m s.0)
  erase-append k v ((j, u) ∷ d) m s =
      rw (other_key j k v d m s.0) (ap (λ n. (j, u) ∷ n) (erase-append k v d m s.1))

  pub insert_or_assign-append :
      (k : Bytes) (v u : V) (d m : Map V)
      → IsSorted (d ++ (k, v) ∷ m)
      → insert_or_assign k u (d ++ (k, v) ∷ m) ≡ d ++ (k, u) ∷ m
  unfolding insert_or_assign
  insert_or_assign-append k v u [] m s = rw (bytes_eq_refl k) refl
  insert_or_assign-append k v u ((j, w) ∷ d) m s =
      rw (other_key j k v d m s.0, bytes_lt_asym j k (Above-append j k v d m s.0))
        (ap (λ n. (j, w) ∷ n) (insert_or_assign-append k v u d m s.1))

  pub update-IsSorted :
      (k : Bytes) (v u : V) (d m : Map V) → IsSorted (d ++ (k, v) ∷ m) → IsSorted (d ++ (k, u) ∷ m)
  update-IsSorted k v u [] m s = s
  update-IsSorted k v u ((j, w) ∷ d) m s = (above d s.0, update-IsSorted k v u d m s.1)
    where
      above : (e : Map V) → Above j (e ++ (k, v) ∷ m) → Above j (e ++ (k, u) ∷ m)
      above [] a = a
      above (x ∷ e) a = (a.0, above e a.1)

  pub erase-insert_or_assign :
      (k : Bytes) (v : V) (m : Map V) → erase k (insert_or_assign k v m) ≡ erase k m
  unfolding erase insert_or_assign
  erase-insert_or_assign k v [] = rw (bytes_eq_refl k) refl
  erase-insert_or_assign k v ((j, u) ∷ m) = elim (Bool-cases (bytes_eq k j)) [
    | inl e ↦ rw (e, bytes_eq_refl k) refl
    | inr e ↦ elim (Bool-cases (bytes_lt k j)) [
      | inl f ↦ rw (e, f, bytes_eq_refl k, e) refl
      | inr f ↦ rw (e, f, e) (ap (λ n. (j, u) ∷ n) (erase-insert_or_assign k v m))
    ]
  ]
