-- ===== src/Etcd/Prefixes.antt =====
-- The keys that PrefixRangeEnd of src/infra/etcd_discovery.cpp makes etcd watch.
use range_vec_kv.Base.{
  ℕ, ◌≡◌, ◌<◌, ◌+◌, ◌==◌, refl, Bool, true, false, not, ◌&&◌, Option, none, some, [], ◌∷◌, All,
  if◌then◌else◌, arith,
}
use range_vec_kv.Base.Bytes.{Bytes, bytes_lt, bytes_eq}
use range_vec_kv.Codec.{has_prefix}
use range_vec_kv.Etcd.Values.{increment_last, prefix_range_end}

abbrev pub AreBytes : Bytes → Type 0
AreBytes text = All (λ b. b < 256) text

-- Whether the text has no byte but 0xff.
unfoldable pub is_highest : Bytes → Bool
is_highest [] = true
is_highest (b ∷ rest) = b == 0xff && is_highest rest

-- What the keys with this prefix are, given the prefix with its last byte incremented.
abbrev IsBounded : Bytes → Option Bytes → Type 0
IsBounded p none =
    (is_highest p ≡ true) × ((key : Bytes) → AreBytes key → has_prefix p key ≡ not (bytes_lt key p))
IsBounded p (some end) =
    (key : Bytes) → AreBytes key → has_prefix p key ≡ (not (bytes_lt key p) && bytes_lt key end)

last_byte :
    (b : ℕ) (rest : Bytes) (c : Bool)
    → (b == 0xff) ≡ c
    → b < 256
    → IsBounded rest none
    → IsBounded (b ∷ rest) (if c then none else some ((b + 1) ∷ []))
unfolding is_highest has_prefix bytes_lt
last_byte b rest true e h (f, k) = (ground (arith, f), keys)
  where
    keys : (key : Bytes) → AreBytes key → has_prefix (b ∷ rest) key ≡ not (bytes_lt key (b ∷ rest))
    keys [] g = refl
    keys (x ∷ xs) (g, gs) = ground (arith, k xs gs)
last_byte b rest false e h (f, k) = keys
  where
    keys :
        (key : Bytes)
        → AreBytes key
        → has_prefix (b ∷ rest) key ≡ (not (bytes_lt key (b ∷ rest)) && bytes_lt key ((b + 1) ∷ []))
    keys [] g = refl
    keys (x ∷ []) (g, gs) = ground (arith, k [] gs)
    keys (x ∷ y ∷ ys) (g, gs) = ground (arith, k (y ∷ ys) gs)

any_key : (key : Bytes) → has_prefix [] key ≡ not (bytes_lt key [])
unfolding has_prefix bytes_lt bytes_eq
any_key [] = refl
any_key (x ∷ xs) = refl

longer_end :
    (b : ℕ) (rest end key : Bytes)
    → IsBounded rest (some end)
    → AreBytes key
    → has_prefix (b ∷ rest) key ≡ (not (bytes_lt key (b ∷ rest)) && bytes_lt key (b ∷ end))
unfolding has_prefix bytes_lt bytes_eq
longer_end b rest end [] k g = refl
longer_end b rest end (x ∷ xs) k g = ground (arith, k xs g.1)

increment_last-IsBounded : (p : Bytes) → AreBytes p → IsBounded p (increment_last p)
unfolding increment_last is_highest
increment_last-IsBounded [] h = (refl, λ key g. any_key key)
increment_last-IsBounded (b ∷ rest) h =
    by_rest (increment_last rest) (increment_last-IsBounded rest h.1)
  where
    by_rest :
        (o : Option Bytes)
        → IsBounded rest o
        → IsBounded (b ∷ rest) (elim o as (λ y. Option Bytes) [
          | some end ↦ some (b ∷ end)
          | none ↦ if b == 0xff then none else some ((b + 1) ∷ [])
        ])
    by_rest none k = last_byte b rest (b == 0xff) refl h.0 k
    by_rest (some end) k = λ key g. longer_end b rest end key k g

-- A key of bytes has a prefix with a byte other than 0xff if and only if it is not below the prefix
-- and is below PrefixRangeEnd of it.
pub prefix_range_end-has_prefix :
    (prefix key : Bytes)
    → AreBytes prefix
    → AreBytes key
    → is_highest prefix ≡ false
    → has_prefix prefix key ≡ (not (bytes_lt key prefix) && bytes_lt key (prefix_range_end prefix))
unfolding prefix_range_end
prefix_range_end-has_prefix prefix key h g low =
    by_end (increment_last prefix) (increment_last-IsBounded prefix h)
  where
    by_end :
        (o : Option Bytes)
        → IsBounded prefix o
        → has_prefix prefix key ≡ (
            not (bytes_lt key prefix)
            && bytes_lt key (elim o as (λ y. Bytes) [ none ↦ 0 ∷ [] | some end ↦ end ]))
    by_end none (highest, k) = absurd (ground (arith, highest, low))
    by_end (some end) k = k key g
