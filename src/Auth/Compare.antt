-- ===== src/Auth/Compare.antt =====
-- The comparison in constant time is equality, for texts of fewer than 256 bytes.
use range_vec_kv.Base.{
  ℕ, zero, suc, ◌≡◌, ◌≤◌, ◌<◌, ◌+◌, ◌/◌, ◌%◌, ◌==◌, refl, ap, sym, subst, ◌∙◌, true, false, [], ◌∷◌,
  length, All, arith, max, ◌↔◌,
}
use range_vec_kv.Base.Bytes.{Bytes}
use range_vec_kv.OrderedMap.{Map}
use range_vec_kv.Status.{is_ok}
use range_vec_kv.Document.Mutation.{is_empty}
use range_vec_kv.Auth.{
  Authenticator, authenticate, extract_presented_key, constant_time_equals, difference,
}
use Prim.Native.Nat.{bit_xor, bit_or, digits, differ, bit_xor-bitwise, bit_or-bitwise}

differ_zero : (x y : ℕ) → differ x y ≡ 0 → x ≡ y
differ_zero zero y e = sym e
differ_zero (suc x) zero e = e
differ_zero (suc x) (suc y) e = ap suc (differ_zero x y e)

differ_self : (x : ℕ) → differ x x ≡ 0
differ_self zero = refl
differ_self (suc x) = differ_self x

xor_digits_zero : (n a b : ℕ) → a ≤ n → digits (λ c. c) differ n a b ≡ 0 → a ≡ b
xor_digits_zero zero zero b h e = sym e
xor_digits_zero zero (suc a) b h e = absurd (omega arith)
xor_digits_zero (suc n) zero b h e = sym e
xor_digits_zero (suc n) (suc a) b h e = omega (
  arith,
  xor_digits_zero n (suc a / 2) (b / 2) (omega arith) (omega (arith, e)),
  differ_zero (suc a % 2) (b % 2) (omega (arith, e)),
)

or_digits_zero : (n a b : ℕ) → a ≤ n → digits (λ c. c) max n a b ≡ 0 → (a ≡ 0) × (b ≡ 0)
or_digits_zero zero zero b h e = (refl, e)
or_digits_zero zero (suc a) b h e = absurd (omega arith)
or_digits_zero (suc n) zero b h e = (refl, e)
or_digits_zero (suc n) (suc a) b h e =
    let (p, q) = or_digits_zero n (suc a / 2) (b / 2) (omega arith) (omega (arith, e)) in
    (omega (arith, p, q, e), omega (arith, p, q, e))

xor_digits_self : (n a : ℕ) → a ≤ n → digits (λ c. c) differ n a a ≡ 0
xor_digits_self zero a h = omega arith
xor_digits_self (suc n) zero h = refl
xor_digits_self (suc n) (suc a) h =
    omega (arith, xor_digits_self n (suc a / 2) (omega arith), differ_self (suc a % 2))

abbrev power_of_two : ℕ → ℕ
power_of_two zero = 1
power_of_two (suc k) = power_of_two k + power_of_two k

differ_digits : (x y : ℕ) → x < 2 → y < 2 → differ x y < 2
differ_digits zero y h k = k
differ_digits (suc x) zero h k = h
differ_digits (suc zero) (suc zero) h k = omega arith
differ_digits (suc zero) (suc (suc y)) h k = absurd (omega arith)
differ_digits (suc (suc x)) (suc y) h k = absurd (omega arith)

xor_digits_below :
    (k n a b : ℕ)
    → a < power_of_two k
    → b < power_of_two k
    → digits (λ c. c) differ n a b < power_of_two k
xor_digits_below k zero a b h i = i
xor_digits_below k (suc n) zero b h i = i
xor_digits_below zero (suc n) (suc a) b h i = absurd (omega arith)
xor_digits_below (suc k) (suc n) (suc a) b h i = omega (
  arith,
  xor_digits_below k n (suc a / 2) (b / 2) (omega (arith, h)) (omega (arith, i)),
  differ_digits (suc a % 2) (b % 2) (omega arith) (omega arith),
)

xor_digits : (a b : ℕ) → bit_xor a b ≡ digits (λ c. c) differ a a b
xor_digits a b = λ i. bit_xor-bitwise a b i

or_digits : (a b : ℕ) → bit_or a b ≡ digits (λ c. c) max a a b
or_digits a b = λ i. bit_or-bitwise a b i

-- Two numbers below 256 whose exclusive or, cut to eight bits, is zero are equal.
bit_xor_zero : (a b : ℕ) → a < 256 → b < 256 → bit_xor a b % 256 ≡ 0 → a ≡ b
bit_xor_zero a b h i e =
    xor_digits_zero a a b (omega arith)
      (omega (arith, xor_digits_below 8 a a b h i, xor_digits a b, e))

bit_xor_self : (a : ℕ) → bit_xor a a ≡ 0
bit_xor_self a = xor_digits a a ∙ xor_digits_self a a (omega arith)

bit_or_zero : (a b : ℕ) → bit_or a b ≡ 0 → (a ≡ 0) × (b ≡ 0)
bit_or_zero a b e = or_digits_zero a a b (omega arith) (sym (or_digits a b) ∙ e)

-- Every byte of a text is below 256.
abbrev pub IsBytes : Bytes → Type 0
IsBytes = All (λ b. b < 256)

difference_diff : (diff : ℕ) (l r : Bytes) → difference diff l r ≡ 0 → diff ≡ 0
unfolding difference
difference_diff diff [] [] e = e
difference_diff diff (x ∷ l) [] e =
    (bit_or_zero diff _ (difference_diff (bit_or diff (bit_xor x 0 % 256)) l [] e)).0
difference_diff diff [] (y ∷ r) e =
    (bit_or_zero diff _ (difference_diff (bit_or diff (bit_xor 0 y % 256)) [] r e)).0
difference_diff diff (x ∷ l) (y ∷ r) e =
    (bit_or_zero diff _ (difference_diff (bit_or diff (bit_xor x y % 256)) l r e)).0

difference_same :
    (diff : ℕ) (l r : Bytes)
    → IsBytes l
    → IsBytes r
    → length l ≡ length r
    → difference diff l r ≡ 0
    → l ≡ r
unfolding difference
difference_same diff [] [] h i n e = refl
difference_same diff (x ∷ l) [] h i n e = absurd (omega (arith, n))
difference_same diff [] (y ∷ r) h i n e = absurd (omega (arith, n))
difference_same diff (x ∷ l) (y ∷ r) h i n e =
    cons_path
      (bit_xor_zero x y h.0 i.0
        (bit_or_zero diff _ (difference_diff (bit_or diff (bit_xor x y % 256)) l r e)).1)
      (difference_same (bit_or diff (bit_xor x y % 256)) l r h.1 i.1 (omega (arith, n)) e)
  where
    cons_path : {a b : ℕ} {s t : Bytes} → a ≡ b → s ≡ t → a ∷ s ≡ b ∷ t
    cons_path p q = cc

difference_self : (l : Bytes) → difference 0 l l ≡ 0
unfolding difference
difference_self [] = refl
difference_self (x ∷ l) = rw (bit_xor_self x) (difference_self l)

-- For texts of fewer than 256 bytes the comparison in constant time is true exactly if they are
-- equal. (A longer text may differ from one whose length differs by a multiple of 256.)
pub constant_time_equals_iff :
    (l r : Bytes)
    → IsBytes l
    → IsBytes r
    → length l < 256
    → length r < 256
    → (constant_time_equals l r ≡ true) ↔ (l ≡ r)
unfolding constant_time_equals
constant_time_equals_iff l r h i m n = (to, from)
  where
    zero_of : (d : ℕ) → (d == 0) ≡ true → d ≡ 0
    zero_of d e = ground arith

    to : constant_time_equals l r ≡ true → l ≡ r
    to e =
        difference_same _ l r h i
          (bit_xor_zero (length l) (length r) m n (difference_diff _ l r (zero_of _ e)))
          (zero_of _ e)

    equal : constant_time_equals l l ≡ true
    equal = rw (bit_xor_self (length l)) (rw (difference_self l) refl)

    from : l ≡ r → constant_time_equals l r ≡ true
    from p = subst (λ t. constant_time_equals l t ≡ true) p equal

-- Where a key is required and one of fewer than 256 bytes is configured, a request whose presented
-- key has fewer than 256 bytes is let in exactly if that key is the configured one.
pub authenticate-is_ok :
    (a : Authenticator) (headers : Map Bytes)
    → a.required ≡ true
    → is_empty a.api_key ≡ false
    → IsBytes a.api_key
    → IsBytes (extract_presented_key headers)
    → length a.api_key < 256
    → length (extract_presented_key headers) < 256
    → (is_ok (authenticate a headers) ≡ true) ↔ (extract_presented_key headers ≡ a.api_key)
unfolding authenticate
authenticate-is_ok a headers q f h i m n = (to, from)
  where
    same :
        (constant_time_equals (extract_presented_key headers) a.api_key ≡ true)
        ↔ (extract_presented_key headers ≡ a.api_key)
    same = constant_time_equals_iff (extract_presented_key headers) a.api_key i h n m

    passed :
        is_ok (authenticate a headers) ≡ true
        → constant_time_equals (extract_presented_key headers) a.api_key ≡ true
    passed e = ground arith

    to : is_ok (authenticate a headers) ≡ true → extract_presented_key headers ≡ a.api_key
    to e = same.0 (passed e)

    passes :
        is_empty (extract_presented_key headers) ≡ false
        → constant_time_equals (extract_presented_key headers) a.api_key ≡ true
        → is_ok (authenticate a headers) ≡ true
    passes e c = ground arith

    from : extract_presented_key headers ≡ a.api_key → is_ok (authenticate a headers) ≡ true
    from p = passes (ap is_empty p ∙ f) (same.1 p)
