-- ===== src/OrderedMap/Laws.antt =====
-- What a lookup gives after each operation of a map.
use range_vec_kv.Base.{
  ◌≡◌, refl, true, none, some, [], ◌∷◌, if◌then◌else◌, arith, Option-cases, inl, inr, All,
  Bool-cases, subst, false,
}
use range_vec_kv.Base.Bytes.{Bytes, bytes_lt, bytes_eq, bytes_eq→eq, bytes_eq_left, bytes_eq_right}
use range_vec_kv.OrderedMap.{Map, find, insert_or_assign, erase, emplace}

module _ {ℓ} {V : Type ℓ} where
  pub find-insert_or_assign :
      (j k : Bytes) (v : V) (m : Map V)
      → find j (insert_or_assign k v m) ≡ (if bytes_eq j k then some v else find j m)
  unfolding find insert_or_assign
  find-insert_or_assign j k v [] = refl
  find-insert_or_assign j k v ((i, w) ∷ m) =
      ground (arith, bytes_eq_right j k i, bytes_eq_left j k i, find-insert_or_assign j k v m)

  pub find-erase :
      (j k : Bytes) (m : Map V) → find j (erase k m) ≡ (if bytes_eq j k then none else find j m)
  unfolding find erase
  find-erase j k [] = ground arith
  find-erase j k ((i, w) ∷ m) =
      ground (arith, bytes_eq_right j k i, bytes_eq_left j k i, find-erase j k m)

  pub find-congr : (j k : Bytes) (m : Map V) → bytes_eq j k ≡ true → find j m ≡ find k m
  find-congr j k m e = rw (bytes_eq→eq j k e)

  -- A key that is there keeps its value under `emplace`.
  pub find-emplace :
      (j k : Bytes) (v : V) (m : Map V)
      → find j (emplace k v m)
        ≡ (if bytes_eq j k then elim (find k m) [ none ↦ some v | some w ↦ some w ] else find j m)
  unfolding emplace
  find-emplace j k v m = elim (Option-cases (find k m)) [
    | inl e ↦ rw (e, emplace, find-insert_or_assign j k v m)
    | inr (w, e) ↦ ground (arith, e, find-congr j k m)
  ]

pub ruleset map_laws = (find-insert_or_assign, find-erase)

module _ {ℓ κ} {V : Type ℓ} (P : Bytes × V → Type κ) where
  pub All-insert_or_assign :
      (k : Bytes) (v : V) (m : Map V) → P (k, v) → All P m → All P (insert_or_assign k v m)
  unfolding insert_or_assign
  All-insert_or_assign k v [] p h = (p, tt)
  All-insert_or_assign k v ((j, w) ∷ m) p h = elim (Bool-cases (bytes_eq k j)) [
    | inl e ↦ rw e (p, h.1)
    | inr e ↦ rw e (elim (Bool-cases (bytes_lt k j)) [
      | inl l ↦ rw l (p, h)
      | inr l ↦ rw l (h.0, All-insert_or_assign k v m p h.1)
    ])
  ]

  pub All-erase : (k : Bytes) (m : Map V) → All P m → All P (erase k m)
  unfolding erase
  All-erase k [] h = tt
  All-erase k ((j, w) ∷ m) h = elim (Bool-cases (bytes_eq k j)) [
    | inl e ↦ rw e (All-erase k m h.1)
    | inr e ↦ rw e (h.0, All-erase k m h.1)
  ]

  head_value :
      (k j : Bytes) (w : V) (m : Map V) {v : V}
      → bytes_eq k j ≡ true
      → find k ((j, w) ∷ m) ≡ some v
      → P (j, w)
      → P (j, v)
  unfolding find
  head_value k j w m {v} q e p = subst (λ u. P (j, u)) (same v q e) p
    where
      same : (u : V) → bytes_eq k j ≡ true → find k ((j, w) ∷ m) ≡ some u → w ≡ u
      same u q' e' = ground arith

  tail_value :
      (k j : Bytes) (w : V) (m : Map V) {v : V}
      → bytes_eq k j ≡ false
      → find k ((j, w) ∷ m) ≡ some v
      → find k m ≡ some v
  unfolding find
  tail_value k j w m q e = ground arith

  -- What holds of every entry holds of one that is found.
  pub find-All :
      (k : Bytes) (m : Map V) {v : V}
      → All P m
      → find k m ≡ some v
      → (j : Bytes) × (bytes_eq k j ≡ true) × P (j, v)
  unfolding find
  find-All k [] h e = absurd (cc)
  find-All k ((j, w) ∷ m) h e = elim (Bool-cases (bytes_eq k j)) [
    | inl q ↦ (j, q, head_value k j w m q e h.0)
    | inr q ↦ find-All k m h.1 (tail_value k j w m q e)
  ]
