-- ===== src/Document/Keys.antt =====
-- Composite keys tell documents apart as long as collection names do not hold the separator.
use range_vec_kv.Base.{◌≡◌, ◌≢◌, refl, ap, [], ◌∷◌, ◌++◌, All, arith}
use range_vec_kv.Base.Bytes.{Bytes}
use range_vec_kv.Document.{separator, build_composite_key}

-- The separator does not occur.
abbrev pub IsPlain : Bytes → Type 0
IsPlain = All (λ b. b ≢ separator)

-- Two composite keys with plain collections are equal only if collections and keys are.
pub build_composite_key-injective :
    (c d k l : Bytes)
    → IsPlain c
    → IsPlain d
    → build_composite_key c k ≡ build_composite_key d l
    → (c ≡ d) × (k ≡ l)
unfolding build_composite_key
build_composite_key-injective [] [] k l p q e = ground arith
build_composite_key-injective [] (y ∷ ys) k l p q e = ground arith
build_composite_key-injective (x ∷ xs) [] k l p q e = ground arith
build_composite_key-injective (x ∷ xs) (y ∷ ys) k l p q e =
    ground (arith, build_composite_key-injective xs ys k l p.1 q.1)

-- A separator inside a collection name makes two documents share one entry.
pub build_composite_key_clash :
    (c k l : Bytes)
    → build_composite_key (c ++ separator ∷ k) l ≡ build_composite_key c (k ++ separator ∷ l)
unfolding build_composite_key
build_composite_key_clash [] k l = refl
build_composite_key_clash (x ∷ xs) k l = ap (λ t. x ∷ t) (build_composite_key_clash xs k l)
