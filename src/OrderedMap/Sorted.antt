-- ===== src/OrderedMap/Sorted.antt =====
-- The keys of a map ascend strictly, and two maps with the same lookups are equal.
use range_vec_kv.Base.{◌≡◌, refl, sym, subst, true, none, [], ◌∷◌, inl, inr, Bool-cases, arith}
use range_vec_kv.Base.Bytes.{
  Bytes, bytes_eq, bytes_lt, bytes_eq→eq, bytes_eq_refl, bytes_lt_trans, bytes_lt-total,
  bytes_lt→bytes_eq,
}
use range_vec_kv.OrderedMap.{Map, find, insert_or_assign, erase}

module _ {ℓ} {V : Type ℓ} where
  -- Every key of `m` is above `k`.
  abbrev pub Above : Bytes → Map V → Type 0
  Above k [] = Unit
  Above k ((j, w) ∷ m) = (bytes_lt k j ≡ true) × Above k m

  abbrev pub IsSorted : Map V → Type 0
  IsSorted [] = Unit
  IsSorted ((j, w) ∷ m) = Above j m × IsSorted m

  pub Above-trans : (a b : Bytes) (m : Map V) → bytes_lt a b ≡ true → Above b m → Above a m
  Above-trans a b [] h k = tt
  Above-trans a b ((j, w) ∷ m) h k = (bytes_lt_trans a b j h k.0, Above-trans a b m h k.1)

  pub Above-insert_or_assign :
      (a k : Bytes) (v : V) (m : Map V)
      → bytes_lt a k ≡ true
      → Above a m
      → Above a (insert_or_assign k v m)
  unfolding insert_or_assign
  Above-insert_or_assign a k v [] h s = (h, tt)
  Above-insert_or_assign a k v ((j, w) ∷ m) h s = ground (arith, Above-insert_or_assign a k v m)

  pub insert_or_assign-IsSorted :
      (k : Bytes) (v : V) (m : Map V) → IsSorted m → IsSorted (insert_or_assign k v m)
  unfolding insert_or_assign
  insert_or_assign-IsSorted k v [] s = (tt, tt)
  insert_or_assign-IsSorted k v ((j, w) ∷ m) s = elim (Bool-cases (bytes_eq k j)) [
    | inl e ↦ rw e (rw (bytes_eq→eq k j e) s)
    | inr e ↦ rw e (elim (Bool-cases (bytes_lt k j)) [
      | inl l ↦ rw l ((l, Above-trans k j m l s.0), s)
      | inr l ↦ rw l (
        Above-insert_or_assign j k v m (bytes_lt-total k j e l) s.0,
        insert_or_assign-IsSorted k v m s.1,
      )
    ])
  ]

  Above-erase : (a k : Bytes) (m : Map V) → Above a m → Above a (erase k m)
  unfolding erase
  Above-erase a k [] s = tt
  Above-erase a k ((j, w) ∷ m) s = ground (arith, Above-erase a k m)

  pub erase-IsSorted : (k : Bytes) (m : Map V) → IsSorted m → IsSorted (erase k m)
  unfolding erase
  erase-IsSorted k [] s = tt
  erase-IsSorted k ((j, w) ∷ m) s = ground (arith, Above-erase j k m, erase-IsSorted k m)

  pub find-Above : (k : Bytes) (m : Map V) → Above k m → find k m ≡ none
  unfolding find
  find-Above k [] s = refl
  find-Above k ((j, w) ∷ m) s = ground (arith, bytes_lt→bytes_eq k j, find-Above k m)

  -- Tails of maps with the same lookups have the same lookups.
  tail_lookups :
      (a : Bytes) (v w : V) (m n : Map V)
      → Above a m
      → Above a n
      → ((k : Bytes) → find k ((a, v) ∷ m) ≡ find k ((a, w) ∷ n))
      → (k : Bytes) → find k m ≡ find k n
  unfolding find
  tail_lookups a v w m n s t h k = elim (Bool-cases (bytes_eq k a)) [
    | inl e ↦ rw (bytes_eq→eq k a e, find-Above a m s, find-Above a n t)
    | inr e ↦ ground (arith, h k)
  ]

  -- A first key cannot be missing on the other side.
  head_found : (a : Bytes) (v : V) (m n : Map V) → Above a n → find a ((a, v) ∷ m) ≡ find a n → ⊥
  unfolding find
  head_found a v m n s h = ground (arith, find-Above a n s, bytes_eq_refl a)

  heads_agree :
      (a b : Bytes) (v w : V) (m n : Map V)
      → bytes_eq a b ≡ true
      → find a ((a, v) ∷ m) ≡ find a ((b, w) ∷ n)
      → v ≡ w
  unfolding find
  heads_agree a b v w m n e h = ground (arith, bytes_eq_refl a)

  cons_path :
      (a b : Bytes) (v w : V) (m n : Map V)
      → a ≡ b
      → v ≡ w
      → m ≡ n
      → ◌≡◌ {A = Map V} ((a, v) ∷ m) ((b, w) ∷ n)
  cons_path a b v w m n p q r = cc

  pub map_ext :
      (m n : Map V) → IsSorted m → IsSorted n → ((k : Bytes) → find k m ≡ find k n) → m ≡ n
  map_ext [] [] s t h = refl
  map_ext [] ((b, w) ∷ n) s t h = absurd (head_found b w n [] tt (sym (h b)))
  map_ext ((a, v) ∷ m) [] s t h = absurd (head_found a v m [] tt (h a))
  map_ext ((a, v) ∷ m) ((b, w) ∷ n) s t h = elim (Bool-cases (bytes_eq a b)) [
    | inl e ↦
        let p : b ≡ a = sym (bytes_eq→eq a b e) in
        let t' : Above a n = subst (λ c. Above c n) p t.0 in
        let q : v ≡ w = heads_agree a b v w m n e (h a) in
        let h' : (k : Bytes) → find k ((a, v) ∷ m) ≡ find k ((a, w) ∷ n) =
          subst (λ c. (k : Bytes) → find k ((a, v) ∷ m) ≡ find k ((c, w) ∷ n)) p h in
        cons_path a b v w m n (sym p) q (map_ext m n s.1 t.1 (tail_lookups a v w m n s.0 t' h'))
    | inr e ↦ absurd (elim (Bool-cases (bytes_lt a b)) [
      | inl l ↦ head_found a v m ((b, w) ∷ n) (l, Above-trans a b n l t.0) (h a)
      | inr l ↦
          let l' : bytes_lt b a ≡ true = bytes_lt-total a b e l in
          head_found b w n ((a, v) ∷ m) (l', Above-trans b a m l' s.0) (sym (h b))
    ])
  ]
