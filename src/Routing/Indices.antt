-- ===== src/Routing/Indices.antt =====
-- Lists of indices without repetition, counted against the indices that there are.
use range_vec_kv.Base.{
  ℕ, zero, suc, ◌≡◌, ◌≢◌, ◌≤◌, ◌<◌, ◌==◌, ◌||◌, ==_iff, refl, ap, true, false, List, [], ◌∷◌, ◌++◌,
  if◌then◌else◌, length, length-append, All, All-append, arith, Bool-cases, inl, inr,
}
use range_vec_kv.Routing.{member, add_index}

-- No index occurs twice.
abbrev pub IsDistinct : List ℕ → Type 0
IsDistinct [] = Unit
IsDistinct (x ∷ xs) = (member x xs ≡ false) × IsDistinct xs

pub member-append : (i : ℕ) (xs ys : List ℕ) → member i (xs ++ ys) ≡ (member i xs || member i ys)
unfolding member
member-append i [] ys = refl
member-append i (x ∷ xs) ys = ground (arith, member-append i xs ys)

pub append-IsDistinct :
    (xs : List ℕ) (i : ℕ) → IsDistinct xs → member i xs ≡ false → IsDistinct (xs ++ i ∷ [])
unfolding member
append-IsDistinct [] i d m = (refl, tt)
append-IsDistinct (x ∷ xs) i d m =
    (ground (arith, member-append x xs (i ∷ [])), append-IsDistinct xs i d.1 (ground arith))

pub add_index-IsDistinct : (xs : List ℕ) (i : ℕ) → IsDistinct xs → IsDistinct (add_index xs i)
add_index-IsDistinct xs i d = elim (Bool-cases (member i xs)) [
  | inl e ↦ rw e d
  | inr e ↦ rw e (append-IsDistinct xs i d e)
]

member_congr : (j i : ℕ) (xs : List ℕ) → (j == i) ≡ true → member j xs ≡ member i xs
member_congr j i xs e = ap (λ k. member k xs) ((==_iff j i).0 e)

pub member-add_index :
    (j : ℕ) (xs : List ℕ) (i : ℕ) → member j (add_index xs i) ≡ (member j xs || j == i)
unfolding member
member-add_index j xs i = ground (arith, member-append j xs (i ∷ []), member_congr j i xs)

pub add_index-All :
    (n : ℕ) (xs : List ℕ) (i : ℕ) → i < n → All (λ j. j < n) xs → All (λ j. j < n) (add_index xs i)
add_index-All n xs i h a = elim (Bool-cases (member i xs)) [
  | inl e ↦ rw e a
  | inr e ↦ rw e (All-append (λ j. j < n) xs (i ∷ []) a (h, tt))
]

pub length-add_index : (xs : List ℕ) (i : ℕ) → length (add_index xs i) ≤ suc (length xs)
length-add_index xs i = ground (arith, length-append xs (i ∷ []))

without : ℕ → List ℕ → List ℕ
without x [] = []
without x (y ∷ ys) = if x == y then without x ys else y ∷ without x ys

length-without : (x : ℕ) (ys : List ℕ) → length (without x ys) ≤ length ys
unfolding without
length-without x [] = omega arith
length-without x (y ∷ ys) = ground (arith, length-without x ys)

length-without_lt : (x : ℕ) (ys : List ℕ) → member x ys ≡ true → length (without x ys) < length ys
unfolding without member
length-without_lt x [] m = absurd (cc)
length-without_lt x (y ∷ ys) m = ground (arith, length-without x ys, length-without_lt x ys)

member-without :
    (i x : ℕ) (ys : List ℕ) → i ≢ x → member i ys ≡ true → member i (without x ys) ≡ true
unfolding without member
member-without i x [] n m = m
member-without i x (y ∷ ys) n m = ground (arith, member-without i x ys)

-- A list that has every index below `n` has at least `n` entries.
pub covering_length : (n : ℕ) (xs : List ℕ) → ((i : ℕ) → i < n → member i xs ≡ true) → n ≤ length xs
covering_length zero xs c = omega arith
covering_length (suc n) xs c = omega (
  arith,
  length-without_lt n xs (c n (omega arith)),
  covering_length n (without n xs) (λ i h. member-without i n xs (omega arith) (c i (omega arith))),
)

without_absent : (x : ℕ) (ys : List ℕ) → member x ys ≡ false → without x ys ≡ ys
unfolding without member
without_absent x [] m = refl
without_absent x (y ∷ ys) m = ground (arith, without_absent x ys)

length-without_distinct :
    (x : ℕ) (ys : List ℕ) → IsDistinct ys → length ys ≤ suc (length (without x ys))
unfolding without member
length-without_distinct x [] d = omega arith
length-without_distinct x (y ∷ ys) d =
    ground (arith, length-without_distinct x ys, without_absent x ys, member_congr x y ys)

member-without_absent :
    (i x : ℕ) (ys : List ℕ) → member i ys ≡ false → member i (without x ys) ≡ false
unfolding without member
member-without_absent i x [] m = refl
member-without_absent i x (y ∷ ys) m = ground (arith, member-without_absent i x ys)

without-IsDistinct : (x : ℕ) (ys : List ℕ) → IsDistinct ys → IsDistinct (without x ys)
unfolding without
without-IsDistinct x [] d = tt
without-IsDistinct x (y ∷ ys) d = elim (Bool-cases (x == y)) [
  | inl e ↦ rw e (without-IsDistinct x ys d.1)
  | inr e ↦ rw e (member-without_absent y x ys d.0, without-IsDistinct x ys d.1)
]

below_other : (n y : ℕ) → y < suc n → (n == y) ≡ false → y < n
below_other n y h e = ground arith

without-All : (n : ℕ) (ys : List ℕ) → All (λ j. j < suc n) ys → All (λ j. j < n) (without n ys)
unfolding without
without-All n [] a = tt
without-All n (y ∷ ys) a = elim (Bool-cases (n == y)) [
  | inl e ↦ rw e (without-All n ys a.1)
  | inr e ↦ rw e (below_other n y a.0 e, without-All n ys a.1)
]

-- A list of distinct indices below `n` has at most `n` entries.
pub distinct_length : (n : ℕ) (xs : List ℕ) → IsDistinct xs → All (λ j. j < n) xs → length xs ≤ n
distinct_length zero [] d a = omega arith
distinct_length zero (x ∷ xs) d a = absurd (omega (arith, a.0))
distinct_length (suc n) xs d a = omega (
  arith,
  length-without_distinct n xs d,
  distinct_length n (without n xs) (without-IsDistinct n xs d) (without-All n xs a),
)
