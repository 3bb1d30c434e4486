-- ===== src/Legacy.antt =====
-- The text format that older releases wrote, as src/core/kv_store.cpp still reads it: fields joined
-- by '|', metadata entries by ';', with '\' before what would be read as a separator.
pub mod Escape
pub mod Refusal
use range_vec_kv.Base.{
  ℕ, zero, suc, ◌+◌, ◌-◌, ◌*◌, ◌^◌, ltb, leb, ◌==◌, Bool, true, false, not, ◌&&◌, ◌||◌, Option,
  none, some, List, [], ◌∷◌, ◌++◌, length, if◌then◌else◌,
}
use range_vec_kv.Base.Bytes.{Bytes, bytes}
use range_vec_kv.Base.Int.{ℤ}
use range_vec_kv.OrderedMap.{Map, emplace}
use range_vec_kv.Status.{Status, StatusOr, value, status, internal, Try, returned, raised}
use range_vec_kv.Document.{DocumentRecord}

-- The loop of Unescape, from a state of `escaping`.
unfoldable pub unescape_loop : Bool → Bytes → Bytes
unescape_loop escaping [] = []
unescape_loop false (ch ∷ rest) =
    let after_backslash = unescape_loop true rest in
    let plain = ch ∷ unescape_loop false rest in if ch == b'\\' then after_backslash else plain
unescape_loop true (ch ∷ rest) = (if ch == b'n' then 10 else ch) ∷ unescape_loop false rest

unfoldable pub unescape : Bytes → Bytes
unfolding unescape_loop
unescape text = unescape_loop false text

-- The loop of SplitEscaped: `current` is the part that is being read.
unfoldable pub split_loop : Bool → Bytes → Bytes → ℕ → List Bytes
split_loop escaping current [] delimiter = current ∷ []
split_loop escaping current (ch ∷ rest) delimiter =
    let escape = split_loop true (current ++ ch ∷ []) rest delimiter in
    let cut = current ∷ split_loop false [] rest delimiter in
    let keep = split_loop false (current ++ ch ∷ []) rest delimiter in
    if not escaping && ch == b'\\'
    then escape
    else if not escaping && ch == delimiter
    then cut
    else keep

unfoldable pub split_escaped : Bytes → ℕ → List Bytes
unfolding split_loop
split_escaped text delimiter = split_loop false [] text delimiter

-- The text before the first `ch` and after it, where there is one.
unfoldable pub cut_at : ℕ → Bytes → Option (Bytes × Bytes)
cut_at ch [] = none
cut_at ch (b ∷ rest) =
    if b == ch
    then some ([], rest)
    else elim (cut_at ch rest) [ none ↦ none | some (before, after) ↦ some (b ∷ before, after) ]

unfoldable pub deserialize_parts : List Bytes → Map Bytes → Map Bytes
unfolding cut_at
deserialize_parts [] metadata = metadata
deserialize_parts (part ∷ rest) metadata = deserialize_parts rest (elim (cut_at b'=' part) [
  | none ↦ metadata
  | some (name, text) ↦ emplace (unescape name) (unescape text) metadata
])

unfoldable pub deserialize_metadata : Bytes → Map Bytes
unfolding deserialize_parts split_escaped emplace unescape
deserialize_metadata [] = []
deserialize_metadata (b ∷ rest) = deserialize_parts (split_escaped (b ∷ rest) b';') []

abbrev is_space : ℕ → Bool
is_space c = c == 32 || (leb 9 c && leb c 13)

abbrev is_digit : ℕ → Bool
is_digit c = leb b'0' c && leb c b'9'

skip_spaces : Bytes → Bytes
skip_spaces [] = []
skip_spaces (c ∷ rest) = let tail = skip_spaces rest in if is_space c then tail else c ∷ rest

-- The number that the digits at the front stand for; `none` if there is no digit.
read_digits : Option ℕ → Bytes → Option ℕ
read_digits read [] = read
read_digits read (c ∷ rest) =
    let sum = (elim read [ none ↦ 0 | some n ↦ n * 10 ]) + (c - b'0') in
    let next = read_digits (some sum) rest in if is_digit c then next else read

-- An optional sign and digits: whether there is a minus, and the magnitude.
read_signed : Bytes → Bool × Option ℕ
unfolding read_digits
read_signed [] = (false, none)
read_signed (c ∷ rest) =
    if c == b'-'
    then (true, read_digits none rest)
    else if c == b'+'
    then (false, read_digits none rest)
    else (false, read_digits none (c ∷ rest))

to_unsigned : Bool → Option ℕ → Try ℕ
to_unsigned negative none = raised
to_unsigned negative (some n) =
    if leb (2 ^ 64) n then raised else returned (if negative && not (n == 0) then 2 ^ 64 - n else n)

-- `std::stoull`: throws where there is no number or where it is out of range; a minus sign is
-- taken modulo 2^64.
unfoldable pub stoull : Bytes → Try ℕ
unfolding skip_spaces read_signed to_unsigned
stoull text = let (negative, n) = read_signed (skip_spaces text) in to_unsigned negative n

to_integer : Bool → Option ℕ → Try ℤ
to_integer negative none = raised
to_integer true (some n) =
    if ltb (2 ^ 63) n then raised else returned (if n == 0 then ℤ.pos 0 else ℤ.negsuc (n - 1))
to_integer false (some n) = if leb (2 ^ 63) n then raised else returned (ℤ.pos n)

-- `std::stoll`
unfoldable pub stoll : Bytes → Try ℤ
unfolding skip_spaces read_signed to_integer
stoll text = let (negative, n) = read_signed (skip_spaces text) in to_integer negative n

abbrev five_fields : Bytes → Bytes → Bytes → Bytes → Bytes → DocumentRecord
five_fields collection key title body metadata = record {
  collection = unescape collection;
  key = unescape key;
  title = unescape title;
  body = unescape body;
  metadata = deserialize_metadata metadata;
  version = 0;
  updated_at_unix_ms = ℤ.pos 0;
  mutation_id = [];
}

-- DeserializeRecord on the parts of a line.
unfoldable pub record_of_parts : List Bytes → Try (StatusOr DocumentRecord)
unfolding unescape deserialize_metadata stoull stoll
record_of_parts (c ∷ k ∷ t ∷ b ∷ m ∷ []) = returned (value (five_fields c k t b m))
record_of_parts (c ∷ k ∷ t ∷ b ∷ m ∷ v ∷ u ∷ i ∷ []) = elim (stoull v) [
  | raised ↦ raised
  | returned version ↦ elim (stoll u) [
    | raised ↦ raised
    | returned updated ↦ returned (
        value (record (five_fields c k t b m) {
          version = version;
          updated_at_unix_ms = updated;
          mutation_id = unescape i;
        }))
  ]
]
record_of_parts parts = returned (status (internal (bytes "malformed record serialization")))

unfoldable pub deserialize_record : Bytes → Try (StatusOr DocumentRecord)
unfolding record_of_parts split_escaped
deserialize_record encoded = record_of_parts (split_escaped encoded b'|')

-- The lines that a loop of `std::getline` reads: a text that ends in '\n' has no empty last line.
unfoldable pub lines_loop : Bytes → Bytes → List Bytes
lines_loop [] [] = []
lines_loop (c ∷ current) [] = (c ∷ current) ∷ []
lines_loop current (b ∷ rest) =
    let cut = current ∷ lines_loop [] rest in
    let keep = lines_loop (current ++ b ∷ []) rest in if b == 10 then cut else keep

unfoldable pub lines : Bytes → List Bytes
unfolding lines_loop
lines text = lines_loop [] text
