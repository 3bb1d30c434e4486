-- ===== src/Legacy/Escape.antt =====
-- SplitEscaped and Unescape of src/core/kv_store.cpp against the format that they read.
use range_vec_kv.Base.{
  ℕ, ◌≡◌, refl, ap, sym, ◌∙◌, true, false, ◌==◌, Bool-cases, inl, inr, List, [], ◌∷◌, ◌++◌, map,
  if◌then◌else◌, arith,
}
use range_vec_kv.Base.Bytes.{Bytes}
use range_vec_kv.Legacy.{split_loop, split_escaped, unescape_loop, unescape}
use mathlib.Core.List.{append_assoc, append-nil}

-- How the format writes a byte: '\' stands before '\' and before the delimiter, and a line feed is '\n'.
unfoldable pub escape_byte : ℕ → ℕ → Bytes
escape_byte d b =
    if b == 10
    then b'\\' ∷ b'n' ∷ []
    else if b == b'\\'
    then b'\\' ∷ b'\\' ∷ []
    else if b == d
    then b'\\' ∷ d ∷ []
    else b ∷ []

unfoldable pub escape : ℕ → Bytes → Bytes
escape d [] = []
escape d (b ∷ rest) = escape_byte d b ++ escape d rest

-- The fields after the first, each with the delimiter in front of it.
unfoldable pub write_rest : ℕ → List Bytes → Bytes
write_rest d [] = []
write_rest d (x ∷ xs) = d ∷ (escape d x ++ write_rest d xs)

-- A line of fields.
unfoldable pub write_fields : ℕ → Bytes → List Bytes → Bytes
write_fields d x xs = escape d x ++ write_rest d xs

-- A delimiter that is told apart from the escapes.
abbrev pub IsDelimiter : ℕ → Type 0
IsDelimiter d = ((d == b'\\') ≡ false) × ((d == b'n') ≡ false)

snoc_append : (c rest : Bytes) (b : ℕ) → (c ++ b ∷ []) ++ rest ≡ c ++ b ∷ rest
snoc_append c rest b = append_assoc c (b ∷ []) rest

-- What escapes a byte is read on, whatever the byte is.
split_escape :
    (d c : ℕ) (current tail : Bytes)
    → split_loop false current (b'\\' ∷ c ∷ tail) d
      ≡ split_loop false (current ++ b'\\' ∷ c ∷ []) tail d
unfolding split_loop
split_escape d c current tail =
    ap (λ t. split_loop false t tail d) (snoc_append current (c ∷ []) b'\\')

split_plain :
    (d b : ℕ) (current tail : Bytes)
    → (b == b'\\') ≡ false
    → (b == d) ≡ false
    → split_loop false current (b ∷ tail) d ≡ split_loop false (current ++ b ∷ []) tail d
unfolding split_loop
split_plain d b current tail e f = rw (e, f) refl

split_byte :
    (d b : ℕ) (current tail : Bytes)
    → split_loop false current (escape_byte d b ++ tail) d
      ≡ split_loop false (current ++ escape_byte d b) tail d
unfolding escape_byte
split_byte d b current tail = elim (Bool-cases (b == 10)) [
  | inl e ↦ rw e (split_escape d b'n' current tail)
  | inr e ↦ rw e (elim (Bool-cases (b == b'\\')) [
    | inl f ↦ rw f (split_escape d b'\\' current tail)
    | inr f ↦ rw f (elim (Bool-cases (b == d)) [
      | inl g ↦ rw g (split_escape d d current tail)
      | inr g ↦ rw g (split_plain d b current tail f g)
    ])
  ])
]

split_field :
    (d : ℕ) (x current tail : Bytes)
    → split_loop false current (escape d x ++ tail) d
      ≡ split_loop false (current ++ escape d x) tail d
unfolding escape
split_field d [] current tail = ap (λ t. split_loop false t tail d) (sym (append-nil current))
split_field d (b ∷ x) current tail =
    ap (λ t. split_loop false current t d) (append_assoc (escape_byte d b) (escape d x) tail)
    ∙ split_byte d b current (escape d x ++ tail)
    ∙ split_field d x (current ++ escape_byte d b) tail
    ∙ ap (λ t. split_loop false t tail d) (append_assoc current (escape_byte d b) (escape d x))

-- The delimiter ends a part.
split_cut :
    (d : ℕ) (current tail : Bytes)
    → (d == b'\\') ≡ false
    → split_loop false current (d ∷ tail) d ≡ current ∷ split_loop false [] tail d
unfolding split_loop
split_cut d current tail h = rw (h, same d) refl
  where
    same : (a : ℕ) → (a == a) ≡ true
    same a = ground arith

split_fields :
    (d : ℕ) (current : Bytes) (xs : List Bytes)
    → (d == b'\\') ≡ false
    → split_loop false current (write_rest d xs) d ≡ current ∷ map (escape d) xs
unfolding write_rest split_loop
split_fields d current [] h = refl
split_fields d current (x ∷ xs) h =
    split_cut d current (escape d x ++ write_rest d xs) h
    ∙ ap (λ l. current ∷ l)
        (split_field d x [] (write_rest d xs) ∙ split_fields d (escape d x) xs h)

is_equal : (a b : ℕ) → (b == a) ≡ true → a ≡ b
is_equal a b h = ground arith

unescape_byte :
    (d b : ℕ) (tail : Bytes)
    → (d == b'n') ≡ false
    → unescape_loop false (escape_byte d b ++ tail) ≡ b ∷ unescape_loop false tail
unfolding escape_byte unescape_loop
unescape_byte d b tail h = elim (Bool-cases (b == 10)) [
  | inl e ↦ rw e (head (is_equal 10 b e))
  | inr e ↦ rw e (elim (Bool-cases (b == b'\\')) [
    | inl f ↦ rw f (head (is_equal b'\\' b f))
    | inr f ↦ rw f (elim (Bool-cases (b == d)) [
      | inl g ↦ rw (g, h) (head (is_equal d b g))
      | inr g ↦ rw (g, f) refl
    ])
  ])
]
  where
    head : {a : ℕ} → a ≡ b → a ∷ unescape_loop false tail ≡ b ∷ unescape_loop false tail
    head e = ap (λ x. x ∷ unescape_loop false tail) e

unescape-escape : (d : ℕ) (x : Bytes) → (d == b'n') ≡ false → unescape (escape d x) ≡ x
unfolding escape unescape unescape_loop
unescape-escape d [] h = refl
unescape-escape d (b ∷ x) h =
    unescape_byte d b (escape d x) h ∙ ap (λ l. b ∷ l) (unescape-escape d x h)

unescape_all :
    (d : ℕ) (xs : List Bytes) → (d == b'n') ≡ false → map unescape (map (escape d) xs) ≡ xs
unescape_all d [] h = refl
unescape_all d (x ∷ xs) h =
    ap (λ l. unescape (escape d x) ∷ l) (unescape_all d xs h)
    ∙ ap (λ y. y ∷ xs) (unescape-escape d x h)

-- Of a line of at least one field, in which '\' stands before '\' and before the delimiter and a line
-- feed is "\n", SplitEscaped makes as many parts, and Unescape gives the fields back, delimiters inside
-- them included. The delimiter is neither '\' nor 'n'.
pub unescape-split_escaped :
    (d : ℕ) (x : Bytes) (xs : List Bytes)
    → IsDelimiter d
    → map unescape (split_escaped (write_fields d x xs) d) ≡ x ∷ xs
unfolding split_escaped write_fields
unescape-split_escaped d x xs h =
    ap (map unescape) (split_field d x [] (write_rest d xs) ∙ split_fields d (escape d x) xs h.0)
    ∙ unescape_all d (x ∷ xs) h.1
