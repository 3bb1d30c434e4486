-- ===== src/OrderedMap/Lengths.antt =====
-- How many entries a map has after an assignment or an erasure at a key that it has.
use range_vec_kv.Base.{
  suc, ◌≡◌, ap, sym, subst, inl, inr, refl, none, some, [], ◌∷◌, length, arith, Bool-cases,
}
use range_vec_kv.Base.Bytes.{Bytes, bytes_eq, bytes_lt, bytes_eq→eq, bytes_lt→bytes_eq}
use range_vec_kv.OrderedMap.{Map, find, insert_or_assign, erase}
use range_vec_kv.OrderedMap.Sorted.{IsSorted, Above, Above-trans, find-Above}

module _ {V : Type 0} where
  erase-Above : (k : Bytes) (m : Map V) → Above k m → erase k m ≡ m
  unfolding erase
  erase-Above k [] a = refl
  erase-Above k ((j, w) ∷ m) a = elim (Bool-cases (bytes_eq k j)) [
    | inl e ↦ absurd (ground (arith, e, bytes_lt→bytes_eq k j a.0))
    | inr e ↦ rw e (ap (λ l. (j, w) ∷ l) (erase-Above k m a.1))
  ]

  pub length-erase :
      (k : Bytes) (v : V) (m : Map V)
      → IsSorted m
      → find k m ≡ some v
      → suc (length (erase k m)) ≡ length m
  unfolding erase find
  length-erase k v [] s f = absurd (cc)
  length-erase k v ((j, w) ∷ m) s f = elim (Bool-cases (bytes_eq k j)) [
    | inl e ↦ rw e (
        ap (λ (l : Map V). suc (length l))
          (erase-Above k m (subst (λ x. Above x m) (sym (bytes_eq→eq k j e)) s.0)))
    | inr e ↦ rw e (ap suc (length-erase k v m s.1 (rw e at f)))
  ]

  pub length-insert_or_assign :
      (k : Bytes) (v w : V) (m : Map V)
      → IsSorted m
      → find k m ≡ some v
      → length (insert_or_assign k w m) ≡ length m
  unfolding insert_or_assign find
  length-insert_or_assign k v w [] s f = absurd (cc)
  length-insert_or_assign k v w ((j, x) ∷ m) s f = elim (Bool-cases (bytes_eq k j)) [
    | inl e ↦ rw e refl
    | inr e ↦ elim (Bool-cases (bytes_lt k j)) [
      | inl l ↦ absurd (missing (find-Above k m (Above-trans k j m l s.0)) (rw e at f))
      | inr l ↦ rw (e, l) (ap suc (length-insert_or_assign k v w m s.1 (rw e at f)))
    ]
  ]
    where
      missing : find k m ≡ none → find k m ≡ some v → ⊥
      missing p q = cc
