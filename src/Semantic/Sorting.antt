-- ===== src/Semantic/Sorting.antt =====
-- The insertion sort that stands for std::stable_sort in src/gateway/semantic_search_service.cpp.
use range_vec_kv.Base.{◌≡◌, refl, Bool, true, false, List, [], ◌∷◌, All, Bool-cases, inl, inr}
use range_vec_kv.Base.Ordered.{IsOrdered, IsSorting}
use range_vec_kv.Semantic.Fallback.{insert_stable, stable_sort}
use mathlib.Core.List.{Permᴰ}
use mathlib.Core.List.Permᴰ

-- Sorting by insertion keeps every element, and puts them in the order of a strict weak test.
module _ {A : Type 0} (before : A → A → Bool) where
  insert_stable-Permᴰ : (x : A) (ys : List A) → Permᴰ (insert_stable before x ys) (x ∷ ys)
  unfolding insert_stable
  insert_stable-Permᴰ x [] = Permᴰ.cons refl Permᴰ.nil
  insert_stable-Permᴰ x (y ∷ ys) = elim (Bool-cases (before y x)) [
    | inl e ↦ rw e (Permᴰ.trans (Permᴰ.cons refl (insert_stable-Permᴰ x ys)) (Permᴰ.swap refl refl))
    | inr e ↦ rw e (Permᴰ.refl (x ∷ y ∷ ys))
  ]

  stable_sort-Permᴰ : (xs : List A) → Permᴰ (stable_sort before xs) xs
  unfolding stable_sort
  stable_sort-Permᴰ [] = Permᴰ.nil
  stable_sort-Permᴰ (x ∷ xs) =
      Permᴰ.trans (insert_stable-Permᴰ x (stable_sort before xs))
        (Permᴰ.cons refl (stable_sort-Permᴰ xs))

  module _ (asym : (x y : A) → before x y ≡ true → before y x ≡ false)
      (weak : (x y z : A) → before y x ≡ false → before z y ≡ false → before z x ≡ false) where
    insert_stable-All :
        (y x : A) (ys : List A)
        → before x y ≡ false
        → All (λ z. before z y ≡ false) ys
        → All (λ z. before z y ≡ false) (insert_stable before x ys)
    unfolding insert_stable
    insert_stable-All y x [] h k = (h, tt)
    insert_stable-All y x (z ∷ zs) h k = elim (Bool-cases (before z x)) [
      | inl e ↦ rw e (k.0, insert_stable-All y x zs h k.1)
      | inr e ↦ rw e (h, k)
    ]

    later-All :
        (x y : A) (ys : List A)
        → before y x ≡ false
        → All (λ z. before z y ≡ false) ys
        → All (λ z. before z x ≡ false) ys
    later-All x y [] h k = tt
    later-All x y (z ∷ zs) h k = (weak x y z h k.0, later-All x y zs h k.1)

    insert_stable-IsOrdered :
        (x : A) (ys : List A) → IsOrdered before ys → IsOrdered before (insert_stable before x ys)
    unfolding insert_stable
    insert_stable-IsOrdered x [] h = (tt, tt)
    insert_stable-IsOrdered x (y ∷ ys) h = elim (Bool-cases (before y x)) [
      | inl e ↦ rw e (insert_stable-All y x ys (asym y x e) h.0, insert_stable-IsOrdered x ys h.1)
      | inr e ↦ rw e ((e, later-All x y ys e h.0), h)
    ]

    stable_sort-IsOrdered : (xs : List A) → IsOrdered before (stable_sort before xs)
    unfolding stable_sort
    stable_sort-IsOrdered [] = tt
    stable_sort-IsOrdered (x ∷ xs) =
        insert_stable-IsOrdered x (stable_sort before xs) (stable_sort-IsOrdered xs)

    pub stable_sort-IsSorting : (xs : List A) → IsSorting before xs (stable_sort before xs)
    stable_sort-IsSorting xs = record {
      permutes = stable_sort-Permᴰ xs;
      ordered = stable_sort-IsOrdered xs;
    }
