-- ===== src/Config/Text.antt =====
-- ParseBool, ExpandEnvironmentVariables and the lines of the flat format in src/infra/config.cpp. Trim
-- is the function of src/gateway/auth.cpp. std::getenv is a parameter.
use range_vec_kv.Base.{
  ◌==◌, ◌&&◌, ◌||◌, Bool, Option, none, some, List, [], ◌∷◌, ◌++◌, if◌then◌else◌,
}
use range_vec_kv.Base.Bytes.{Bytes, bytes, bytes_eq}
use range_vec_kv.OrderedMap.{Map, insert_or_assign}
use range_vec_kv.Document.Mutation.{is_empty}
use range_vec_kv.Legacy.{cut_at}
use range_vec_kv.Auth.{trim}
use range_vec_kv.Semantic.{to_lower}

-- ParseBool(value)
unfoldable pub parse_bool : Bytes → Bool
parse_bool text =
    let lowered = to_lower (trim text) in
    bytes_eq lowered (bytes "1")
    || bytes_eq lowered (bytes "true")
    || bytes_eq lowered (bytes "yes")
    || bytes_eq lowered (bytes "on")

abbrev pub or_nothing : Option Bytes → Bytes
or_nothing none = []
or_nothing (some t) = t

-- The text before a '#'.
abbrev pub before_comment : Bytes → Bytes
before_comment line = elim (cut_at b'#' line) [ none ↦ line | some (before, after) ↦ before ]

module _ (getenv : Bytes → Option Bytes) where
  -- The loop of ExpandEnvironmentVariables, with the name of the variable that is being read. A text
  -- that ends before the name does is kept as it is.
  unfoldable pub expand_loop : Option Bytes → Bytes → Bytes
  expand_loop none [] = []
  expand_loop none (b ∷ []) = b ∷ []
  expand_loop none (b ∷ c ∷ rest) =
      let variable = expand_loop (some []) rest in
      let plain = b ∷ expand_loop none (c ∷ rest) in
      if b == b'$' && c == b'{' then variable else plain
  expand_loop (some name) [] = bytes "${" ++ name
  expand_loop (some name) (b ∷ rest) =
      let finished = or_nothing (getenv name) ++ expand_loop none rest in
      let longer = expand_loop (some (name ++ b ∷ [])) rest in
      if b == b'}' then finished else longer

  -- ExpandEnvironmentVariables(value)
  unfoldable pub expand : Bytes → Bytes
  expand text = expand_loop none text

  -- A line of the flat format without its comment and the space around it.
  unfoldable pub read_line : Bytes → Map Bytes → Map Bytes
  read_line line values = if is_empty line then values else elim (cut_at b':' line) [
    | none ↦ values
    | some (key, text) ↦ insert_or_assign (trim key) (expand (trim text)) values
  ]

  -- The loop of LoadFlatConfig over the lines.
  unfoldable pub read_lines : List Bytes → Map Bytes → Map Bytes
  read_lines [] values = values
  read_lines (line ∷ rest) values = read_lines rest (read_line (trim (before_comment line)) values)
