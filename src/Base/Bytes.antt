-- ===== src/Base/Bytes.antt =====
-- A `std::string` is the list of its bytes. `bytes_lt` is the order of `std::string`, which compares
-- bytes as unsigned characters, and `bytes_eq` is its `==`.
use Prim.Native.Char.{code}
use Prim.Native.String.{String}
use range_vec_kv.Base.Tests.{ltb, ◌==◌, if◌then◌else◌, Bool-cases}
use Prim.Native.Nat.{ℕ}
use mathlib.Core.Path.{◌≡◌, refl}
use mathlib.Core.Logic.{inl, inr}
use mathlib.Core.Bool.{Bool, true, false}
use mathlib.Core.List.{List, [], ◌∷◌}
use native.Mathlib.Omega.{arith}

abbrev pub Bytes : Type 0
Bytes = List ℕ

-- The bytes of an ASCII literal of the source.
abbrev pub bytes : String → Bytes
bytes String.[] = []
bytes (String.◌∷◌ c s) = code c ∷ bytes s

unfoldable pub bytes_eq : Bytes → Bytes → Bool
bytes_eq [] [] = true
bytes_eq [] (b ∷ bs) = false
bytes_eq (a ∷ as') [] = false
bytes_eq (a ∷ as') (b ∷ bs) = if a == b then bytes_eq as' bs else false

unfoldable pub bytes_lt : Bytes → Bytes → Bool
bytes_lt [] [] = false
bytes_lt [] (b ∷ bs) = true
bytes_lt (a ∷ as') [] = false
bytes_lt (a ∷ as') (b ∷ bs) = if ltb a b then true else if a == b then bytes_lt as' bs else false

pub bytes_eq→eq : (a b : Bytes) → bytes_eq a b ≡ true → a ≡ b
unfolding bytes_eq
bytes_eq→eq [] [] h = refl
bytes_eq→eq [] (y ∷ ys) h = ground arith
bytes_eq→eq (x ∷ xs) [] h = ground arith
bytes_eq→eq (x ∷ xs) (y ∷ ys) h = ground (arith, bytes_eq→eq xs ys)

pub bytes_eq_refl : (a : Bytes) → bytes_eq a a ≡ true
unfolding bytes_eq
bytes_eq_refl [] = refl
bytes_eq_refl (x ∷ xs) = ground (arith, bytes_eq_refl xs)

pub eq→bytes_eq : (a b : Bytes) → a ≡ b → bytes_eq a b ≡ true
eq→bytes_eq a b e = rw (← e) (bytes_eq_refl a)

pub bytes_eq-false : (a b : Bytes) → (a ≡ b → ⊥) → bytes_eq a b ≡ false
bytes_eq-false a b ne = elim (Bool-cases (bytes_eq a b)) [
  | inl e ↦ absurd (ne (bytes_eq→eq a b e))
  | inr e ↦ e
]

pub bytes_eq_comm : (a b : Bytes) → bytes_eq a b ≡ bytes_eq b a
unfolding bytes_eq
bytes_eq_comm [] [] = refl
bytes_eq_comm [] (y ∷ ys) = refl
bytes_eq_comm (x ∷ xs) [] = refl
bytes_eq_comm (x ∷ xs) (y ∷ ys) = ground (arith, bytes_eq_comm xs ys)

pub bytes_lt_irrefl : (a : Bytes) → bytes_lt a a ≡ false
unfolding bytes_lt
bytes_lt_irrefl [] = refl
bytes_lt_irrefl (x ∷ xs) = ground (arith, bytes_lt_irrefl xs)

pub bytes_lt_trans :
    (a b c : Bytes) → bytes_lt a b ≡ true → bytes_lt b c ≡ true → bytes_lt a c ≡ true
unfolding bytes_lt
bytes_lt_trans [] [] c h k = ground arith
bytes_lt_trans [] (y ∷ ys) [] h k = ground arith
bytes_lt_trans [] (y ∷ ys) (z ∷ zs) h k = refl
bytes_lt_trans (x ∷ xs) [] c h k = ground arith
bytes_lt_trans (x ∷ xs) (y ∷ ys) [] h k = ground arith
bytes_lt_trans (x ∷ xs) (y ∷ ys) (z ∷ zs) h k = ground (arith, bytes_lt_trans xs ys zs)

pub bytes_lt_asym : (a b : Bytes) → bytes_lt a b ≡ true → bytes_lt b a ≡ false
bytes_lt_asym a b h = ground (arith, bytes_lt_trans a b a h, bytes_lt_irrefl a)

-- The order is total: what is neither equal nor below is above.
pub bytes_lt-total :
    (a b : Bytes) → bytes_eq a b ≡ false → bytes_lt a b ≡ false → bytes_lt b a ≡ true
unfolding bytes_eq bytes_lt
bytes_lt-total [] [] h k = ground arith
bytes_lt-total [] (y ∷ ys) h k = ground arith
bytes_lt-total (x ∷ xs) [] h k = refl
bytes_lt-total (x ∷ xs) (y ∷ ys) h k = ground (arith, bytes_lt-total xs ys)

pub bytes_lt→bytes_eq : (a b : Bytes) → bytes_lt a b ≡ true → bytes_eq a b ≡ false
bytes_lt→bytes_eq a b h = elim (Bool-cases (bytes_eq a b)) [
  | inl e ↦ absurd (differ (rw (← bytes_eq→eq a b e) at h))
  | inr e ↦ e
]
  where
    differ : bytes_lt a a ≡ true → ⊥
    differ h' = cc (bytes_lt_irrefl a)

-- Equal keys compare alike.
pub bytes_eq_left : (j k i : Bytes) → bytes_eq j k ≡ true → bytes_eq j i ≡ bytes_eq k i
bytes_eq_left j k i e = rw (bytes_eq→eq j k e)

pub bytes_eq_right : (j k i : Bytes) → bytes_eq k i ≡ true → bytes_eq j i ≡ bytes_eq j k
bytes_eq_right j k i e = rw (bytes_eq→eq k i e)
