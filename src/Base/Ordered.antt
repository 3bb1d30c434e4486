-- ===== src/Base/Ordered.antt =====
-- Lists in an order given by a Boolean test, what a sort promises, and the first elements of a sorted
-- list.
use range_vec_kv.Base.Tests.{ltb, if◌then◌else◌, Bool-cases}
use range_vec_kv.Base.Lists.{length, take, drop, All, length-take, take-drop}
use Prim.Native.Nat.{ℕ, zero, suc, min}
use mathlib.Core.Path.{◌≡◌, refl, ap, ◌∙◌, sym, subst}
use mathlib.Core.Logic.{inl, inr}
use mathlib.Core.Bool.{Bool, false}
use mathlib.Core.List.{List, [], ◌∷◌, ◌++◌, Permᴰ}
use native.Mathlib.Omega.{arith}

-- No later element goes before an earlier one.
abbrev pub IsOrdered : {A : Type 0} → (A → A → Bool) → List A → Type 0
IsOrdered before [] = Unit
IsOrdered before (x ∷ xs) = All (λ y. before y x ≡ false) xs × IsOrdered before xs

-- What a sort promises for elements that `before` orders (strictly and weakly).
pub record IsSorting {A : Type 0} (before : A → A → Bool) (xs sorted : List A) : Type 0 where
  pub permutes : Permᴰ sorted xs
  pub ordered : IsOrdered before sorted

-- The first `k` of all elements, or all if they are fewer, in order: `left` are the others.
pub record IsTop {A : Type 0} (before : A → A → Bool) (k : ℕ) (all hits : List A) : Type 0 where
  pub left : List A
  pub parts : Permᴰ (hits ++ left) all
  pub count : length hits ≡ min k (length all)
  pub ordered : IsOrdered before hits
  pub best : All (λ h. All (λ l. before l h ≡ false) left) hits

take_all : {A : Type 0} (n : ℕ) (xs : List A) → ltb n (length xs) ≡ false → take n xs ≡ xs
take_all zero [] h = refl
take_all zero (x ∷ xs) h = ground arith
take_all (suc n) [] h = refl
take_all (suc n) (x ∷ xs) h = ap (λ l. x ∷ l) (take_all n xs (ground arith))

-- A list that is cut only where it is longer.
pub cut-take :
    {A : Type 0} (k : ℕ) (xs : List A) → (if ltb k (length xs) then take k xs else xs) ≡ take k xs
cut-take k xs = elim (Bool-cases (ltb k (length xs))) [
  | inl e ↦ rw e refl
  | inr e ↦ rw e (sym (take_all k xs e))
]

length-Permᴰ : {A : Type 0} {xs ys : List A} → Permᴰ xs ys → length xs ≡ length ys
length-Permᴰ Permᴰ.nil = refl
length-Permᴰ (Permᴰ.cons e p) = ap suc (length-Permᴰ p)
length-Permᴰ (Permᴰ.swap e f) = refl
length-Permᴰ (Permᴰ.trans p q) = length-Permᴰ p ∙ length-Permᴰ q

prefix-All :
    {A : Type 0} (P : A → Type 0) (n : ℕ) (xs : List A)
    → All P xs
    → All P (take n xs) × All P (drop n xs)
prefix-All P zero xs h = (tt, h)
prefix-All P (suc n) [] h = (tt, tt)
prefix-All P (suc n) (x ∷ xs) h = let rest = prefix-All P n xs h.1 in ((h.0, rest.0), rest.1)

module _ {A : Type 0} (before : A → A → Bool) where
  take-IsOrdered :
      (n : ℕ) (xs : List A)
      → IsOrdered before xs
      → IsOrdered before (take n xs)
        × All (λ x. All (λ y. before y x ≡ false) (drop n xs)) (take n xs)
  take-IsOrdered zero xs h = (tt, tt)
  take-IsOrdered (suc n) [] h = (tt, tt)
  take-IsOrdered (suc n) (x ∷ xs) h =
      let parts = prefix-All (λ y. before y x ≡ false) n xs h.0 in
      let rest = take-IsOrdered n xs h.1 in ((parts.0, rest.0), (parts.1, rest.1))

  pub take-IsTop :
      (k : ℕ) (all sorted : List A)
      → IsSorting before all sorted
      → IsTop before k all (take k sorted)
  take-IsTop k all sorted sorting = record {
    left = drop k sorted;
    parts = subst (λ l. Permᴰ l all) (sym (take-drop k sorted)) sorting.permutes;
    count = length-take k sorted ∙ ap (min k) (length-Permᴰ sorting.permutes);
    ordered = halves.0;
    best = halves.1;
  }
    where
      halves :
          IsOrdered before (take k sorted)
          × All (λ x. All (λ y. before y x ≡ false) (drop k sorted)) (take k sorted)
      halves = take-IsOrdered k sorted sorting.ordered
