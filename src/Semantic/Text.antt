-- ===== src/Semantic/Text.antt =====
-- ToLower, Tokenize and BuildSnippet of src/gateway/semantic_search_service.cpp, in the "C" locale, and
-- std::string::find of a text.
use range_vec_kv.Base.{
  ℕ, suc, ◌+◌, ◌-◌, min, leb, ltb, ◌&&◌, ◌||◌, Bool, true, false, Option, none, some, List, [], ◌∷◌,
  ◌++◌, map, length, take, drop, if◌then◌else◌,
}
use range_vec_kv.Base.Bytes.{Bytes}
use range_vec_kv.Document.Mutation.{is_empty}
use range_vec_kv.Codec.{has_prefix}

-- std::tolower
unfoldable pub to_lower_byte : ℕ → ℕ
to_lower_byte b = if leb b'A' b && leb b b'Z' then b + 32 else b

-- std::isalnum
unfoldable pub is_alnum : ℕ → Bool
is_alnum b = (leb b'0' b && leb b b'9') || (leb b'A' b && leb b b'Z') || (leb b'a' b && leb b b'z')

-- ToLower(value)
unfoldable pub to_lower : Bytes → Bytes
to_lower text = map to_lower_byte text

-- What Tokenize still pushes when a token ends.
abbrev pub push_token : Bytes → List Bytes → List Bytes
push_token [] tokens = tokens
push_token (c ∷ current) tokens = (c ∷ current) ∷ tokens

-- The loop of Tokenize, with the token that has begun.
unfoldable pub tokenize_loop : Bytes → Bytes → List Bytes
tokenize_loop current [] = push_token current []
tokenize_loop current (ch ∷ rest) =
    let longer = tokenize_loop (current ++ ch ∷ []) rest in
    let next = tokenize_loop [] rest in if is_alnum ch then longer else push_token current next

-- Tokenize(value)
unfoldable pub tokenize : Bytes → List Bytes
tokenize text = tokenize_loop [] (to_lower text)

-- text.find(pattern)
unfoldable pub find_text : Bytes → Bytes → Option ℕ
find_text pattern [] = if has_prefix pattern [] then some 0 else none
find_text pattern (b ∷ rest) =
    let later = find_text pattern rest in
    if has_prefix pattern (b ∷ rest)
    then some 0
    else elim later [ none ↦ none | some i ↦ some (suc i) ]

abbrev pub is_some {ℓ} : {A : Type ℓ} → Option A → Bool
is_some none = false
is_some (some a) = true

-- text.find(pattern) != npos
abbrev pub text_contains : Bytes → Bytes → Bool
text_contains text pattern = is_some (find_text pattern text)

-- BuildSnippet(body, query)
unfoldable pub build_snippet : Bytes → Bytes → Bytes
build_snippet body query =
    if is_empty body then [] else elim (find_text (to_lower query) (to_lower body)) [
      | none ↦ take (min (length body) 120) body
      | some position ↦
          let begin = if ltb 40 position then position - 40 else 0 in
          take (min (length body - begin) 120) (drop begin body)
    ]
