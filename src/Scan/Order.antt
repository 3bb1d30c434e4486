-- ===== src/Scan/Order.antt =====
-- How composite keys are ordered: documents of one collection by their keys, and no document of
-- another collection among them.
use range_vec_kv.Base.{◌≡◌, refl, true, false, [], ◌∷◌, arith}
use range_vec_kv.Base.Bytes.{Bytes, bytes_eq, bytes_lt}
use range_vec_kv.Document.{build_composite_key}
use range_vec_kv.Document.Keys.{IsPlain}

pub bytes_lt-build_composite_key :
    (c k l : Bytes) → bytes_lt (build_composite_key c k) (build_composite_key c l) ≡ bytes_lt k l
unfolding build_composite_key bytes_lt
bytes_lt-build_composite_key [] k l = ground arith
bytes_lt-build_composite_key (x ∷ c) k l = ground (arith, bytes_lt-build_composite_key c k l)

-- A key between two keys of a collection is a key of that collection.
pub between_collection :
    (c d b k e : Bytes)
    → IsPlain c
    → IsPlain d
    → bytes_lt (build_composite_key d k) (build_composite_key c b) ≡ false
    → bytes_lt (build_composite_key c e) (build_composite_key d k) ≡ false
    → bytes_eq d c ≡ true
unfolding build_composite_key bytes_lt bytes_eq
between_collection [] [] b k e p q low high = refl
between_collection [] (y ∷ d) b k e p q low high = ground arith
between_collection (x ∷ c) [] b k e p q low high = ground arith
between_collection (x ∷ c) (y ∷ d) b k e p q low high =
    ground (arith, between_collection c d b k e p.1 q.1)
