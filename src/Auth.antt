-- ===== src/Auth.antt =====
-- src/gateway/auth.cpp: the key that a request presents and its comparison with the configured one.
pub mod Compare
use range_vec_kv.Base.{
  ℕ, leb, ◌%◌, ◌==◌, ◌&&◌, ◌||◌, not, Bool, none, some, List, [], ◌∷◌, if◌then◌else◌, length, drop,
}
use range_vec_kv.Base.Bytes.{Bytes, bytes}
use range_vec_kv.OrderedMap.{Map, find}
use range_vec_kv.Status.{Status, ok_status, unavailable}
use range_vec_kv.Document.Mutation.{is_empty}
use range_vec_kv.Codec.{has_prefix}
use Prim.Native.Nat.{bit_xor, bit_or}

-- std::isspace in the "C" locale.
unfoldable pub is_space : ℕ → Bool
is_space b = (b == 0x20) || (leb 0x9 b && leb b 0xd)

unfoldable pub trim_front : Bytes → Bytes
trim_front [] = []
trim_front (b ∷ rest) = let trimmed = trim_front rest in if is_space b then trimmed else b ∷ rest

unfoldable pub trim_back : Bytes → Bytes
trim_back [] = []
trim_back (b ∷ rest) =
    let trimmed = trim_back rest in if is_empty trimmed && is_space b then [] else b ∷ trimmed

unfoldable pub trim : Bytes → Bytes
trim text = trim_back (trim_front text)

unfoldable pub api_key_header : Map Bytes → Bytes
api_key_header headers = elim (find (bytes "x-api-key") headers) [
  | none ↦ []
  | some text ↦ trim text
]

unfoldable pub extract_presented_key : Map Bytes → Bytes
extract_presented_key headers = elim (find (bytes "authorization") headers) [
  | none ↦ api_key_header headers
  | some text ↦
      if has_prefix (bytes "Bearer ") text
      then trim (drop (length (bytes "Bearer ")) text)
      else api_key_header headers
]

-- The loop over the longer text; a text that has ended counts as zeros.
unfoldable pub difference : ℕ → Bytes → Bytes → ℕ
difference diff [] [] = diff
difference diff (l ∷ ls) [] = difference (bit_or diff (bit_xor l 0 % 256)) ls []
difference diff [] (r ∷ rs) = difference (bit_or diff (bit_xor 0 r % 256)) [] rs
difference diff (l ∷ ls) (r ∷ rs) = difference (bit_or diff (bit_xor l r % 256)) ls rs

-- The sizes' exclusive or is cut to an unsigned char.
unfoldable pub constant_time_equals : Bytes → Bytes → Bool
constant_time_equals lhs rhs = difference (bit_xor (length lhs) (length rhs) % 256) lhs rhs == 0

pub record Authenticator : Type 0 where
  pub api_key : Bytes
  pub required : Bool

-- Authenticate(headers)
unfoldable pub authenticate : Authenticator → Map Bytes → Status
authenticate a headers =
    let presented_key = extract_presented_key headers in
    if not a.required
    then ok_status
    else (if is_empty a.api_key
        then unavailable (bytes "api key authentication is enabled but no key is configured")
        else (if is_empty presented_key
            then unavailable (bytes "missing api key")
            else (if not (constant_time_equals presented_key a.api_key)
                then unavailable (bytes "invalid api key")
                else ok_status)))
