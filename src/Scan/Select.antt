-- ===== src/Scan/Select.antt =====
-- Range walks the map from the lower bound and stops early. It returns what a selection from all
-- documents returns, cut to the limit.
use range_vec_kv.Base.{
  ℕ, zero, suc, ◌+◌, ◌-◌, max, ◌≡◌, refl, ap, ◌∙◌, Bool, true, false, not, ◌&&◌, List, [], ◌∷◌, All,
  take, if◌then◌else◌, arith, leb, Bool-cases, inl, inr, ◌⊎◌,
}
use range_vec_kv.Base.Bytes.{Bytes, bytes_eq, bytes_lt, bytes_eq→eq, bytes_lt_trans}
use range_vec_kv.OrderedMap.{Map, lower_bound}
use range_vec_kv.OrderedMap.Sorted.{IsSorted, Above, Above-trans}
use range_vec_kv.Document.{DocumentRecord, build_composite_key, key_of}
use range_vec_kv.Document.Keys.{IsPlain}
use range_vec_kv.Document.Mutation.{is_empty}
use range_vec_kv.WalStore.{WalStore, range, range_loop, range_finish}
use range_vec_kv.Scan.Order.{bytes_lt-build_composite_key, between_collection}

-- The last key that a scan takes: an empty end key stands for "\x7f".
abbrev pub last_key : Bytes → Bytes
last_key end_key = if is_empty end_key then 0x7f ∷ [] else end_key

-- A document of the collection with a key from `begin` to `last`, both included.
unfoldable pub in_range : Bytes → Bytes → Bytes → DocumentRecord → Bool
in_range c begin last r =
    bytes_eq r.collection c && (not (bytes_lt r.key begin) && not (bytes_lt last r.key))

unfoldable pub select : Bytes → Bytes → Bytes → Map DocumentRecord → List DocumentRecord
select c begin last [] = []
select c begin last ((k, r) ∷ m) =
    if in_range c begin last r then r ∷ select c begin last m else select c begin last m

-- A document stands under its own key, and its collection does not hold the separator.
abbrev pub IsPlaced : Bytes × DocumentRecord → Type 0
IsPlaced (k, r) = (k ≡ key_of r) × IsPlain r.collection

range_finish-last_key :
    (c end_key : Bytes) → range_finish c end_key ≡ build_composite_key c (last_key end_key)
unfolding range_finish
range_finish-last_key c [] = refl
range_finish-last_key c (b ∷ bs) = refl

module _ (c begin last : Bytes) (plain : IsPlain c) where
  abbrev start : Bytes
  start = build_composite_key c begin

  abbrev finish : Bytes
  finish = build_composite_key c last

  -- In the collection, the order of the composite keys is the order of the keys.
  key_order :
      (r : DocumentRecord) (k : Bytes)
      → k ≡ key_of r
      → bytes_eq r.collection c ≡ true
      → (bytes_lt k start ≡ bytes_lt r.key begin) × (bytes_lt finish k ≡ bytes_lt last r.key)
  key_order r k e q =
      rw (e, bytes_eq→eq r.collection c q)
        (bytes_lt-build_composite_key c r.key begin, bytes_lt-build_composite_key c last r.key)

  below_start :
      (r : DocumentRecord) (k : Bytes)
      → k ≡ key_of r
      → bytes_lt k start ≡ true
      → in_range c begin last r ≡ false
  unfolding in_range
  below_start r k e h = elim (Bool-cases (bytes_eq r.collection c)) [
    | inl q ↦ ground (arith, (key_order r k e q).0)
    | inr q ↦ rw q
  ]

  above_finish :
      (r : DocumentRecord) (k : Bytes)
      → k ≡ key_of r
      → bytes_lt finish k ≡ true
      → in_range c begin last r ≡ false
  unfolding in_range
  above_finish r k e h = elim (Bool-cases (bytes_eq r.collection c)) [
    | inl q ↦ ground (arith, (key_order r k e q).1)
    | inr q ↦ rw q
  ]

  -- Between the two composite keys there are documents of the collection only.
  within :
      (r : DocumentRecord) (k : Bytes)
      → IsPlaced (k, r)
      → bytes_lt k start ≡ false
      → bytes_lt finish k ≡ false
      → (bytes_eq r.collection c ≡ true) × (in_range c begin last r ≡ true)
  unfolding in_range
  within r k (e, p) low high = (q, ground (arith, q, (key_order r k e q).0, (key_order r k e q).1))
    where
      q : bytes_eq r.collection c ≡ true
      q = between_collection c r.collection begin r.key last plain p (rw e at low) (rw e at high)

  select-lower_bound :
      (m : Map DocumentRecord)
      → All IsPlaced m
      → select c begin last (lower_bound start m) ≡ select c begin last m
  unfolding select lower_bound
  select-lower_bound [] h = refl
  select-lower_bound ((k, r) ∷ m) h = elim (Bool-cases (bytes_lt k start)) [
    | inl low ↦ rw (low, below_start r k h.0.0 low) (select-lower_bound m h.1)
    | inr high ↦ rw high
  ]

  -- Nothing is selected above the last key.
  select-Above :
      (m : Map DocumentRecord) → All IsPlaced m → Above finish m → select c begin last m ≡ []
  unfolding select
  select-Above [] h a = refl
  select-Above ((k, r) ∷ m) h a = rw (above_finish r k h.0.0 a.0) (select-Above m h.1 a.1)

  abbrev IsFrom : Bytes × DocumentRecord → Type 0
  IsFrom (k, r) = bytes_lt k start ≡ false

  Above-IsFrom :
      (k : Bytes) (m : Map DocumentRecord) → bytes_lt k start ≡ false → Above k m → All IsFrom m
  Above-IsFrom k [] low a = tt
  Above-IsFrom k ((j, r) ∷ m) low a =
      (not_below (Bool-cases (bytes_lt j start)), Above-IsFrom k m low a.1)
    where
      not_below : (bytes_lt j start ≡ true) ⊎ (bytes_lt j start ≡ false) → bytes_lt j start ≡ false
      not_below (inl e) = absurd (ground (arith, bytes_lt_trans k j start a.0 e))
      not_below (inr e) = e

  -- What is left of the map at the lower bound.
  record Rest (m : Map DocumentRecord) : Type 0 where
    pub placed : All IsPlaced m
    pub from : All IsFrom m
    pub sorted : IsSorted m

  lower_bound-Rest :
      (m : Map DocumentRecord) → All IsPlaced m → IsSorted m → Rest (lower_bound start m)
  unfolding lower_bound
  lower_bound-Rest [] h s = record { placed = tt; from = tt; sorted = tt }
  lower_bound-Rest ((k, r) ∷ m) h s = elim (Bool-cases (bytes_lt k start)) [
    | inl low ↦ rw low (lower_bound-Rest m h.1 s.1)
    | inr high ↦
        rw high (record { placed = h; from = (high, Above-IsFrom k m high s.0); sorted = s })
  ]

  -- A loop that has not reached the limit yet.
  range_loop-select :
      (limit room taken : ℕ) (m : Map DocumentRecord)
      → taken + suc room ≡ max 1 limit
      → All IsPlaced m
      → All IsFrom m
      → IsSorted m
      → range_loop c finish limit taken m ≡ take (suc room) (select c begin last m)
  unfolding range_loop select
  range_loop-select limit room taken [] e h f s = refl
  range_loop-select limit room taken ((k, r) ∷ m) e h f s = elim (Bool-cases (bytes_lt finish k)) [
    | inl beyond ↦ rw (
      beyond,
      above_finish r k h.0.0 beyond,
      select-Above m h.1 (Above-trans finish k m beyond s.0),
    )
    | inr inside ↦
        rw (inside, (within r k h.0 f.0 inside).0, (within r k h.0 f.0 inside).1)
          (go_on room e (λ n q. range_loop-select limit n (suc taken) m q h.1 f.1 s.1))
  ]
    where
      go_on :
          (n : ℕ)
          → taken + suc n ≡ max 1 limit
          → ((l : ℕ)
              → suc taken + suc l ≡ max 1 limit
              → range_loop c finish limit (suc taken) m ≡ take (suc l) (select c begin last m))
          → (if leb limit (suc taken) then r ∷ [] else r ∷ range_loop c finish limit (suc taken) m)
            ≡ r ∷ take n (select c begin last m)
      go_on zero q rest = ground arith
      go_on (suc l) q rest = ground (arith, rest l (omega arith))

room_of : (limit : ℕ) → suc (max 1 limit - 1) ≡ max 1 limit
room_of limit = omega arith

-- On a store whose documents stand under their keys, with no separator in a collection name, Range
-- returns the documents of the collection whose key is not below the begin key and not above the
-- last key, in key order, and of these the first `limit` (one, if the limit is zero). The last key
-- is the end key, which is included, or the text "\x7f" if the end key is empty.
pub range-select :
    (s : WalStore) (c begin_key end_key : Bytes) (limit : ℕ)
    → IsPlain c
    → All IsPlaced s.records
    → IsSorted s.records
    → range s c begin_key end_key limit
      ≡ take (max 1 limit) (select c begin_key (last_key end_key) s.records)
unfolding range
range-select s c begin_key end_key limit plain placed sorted =
    rw (range_finish-last_key c end_key) (
      range_loop-select c begin_key (last_key end_key) plain limit (max 1 limit - 1) 0 _
        (omega arith) rest.placed rest.from rest.sorted
      ∙ ap (λ (n : ℕ). take n (select c begin_key (last_key end_key) (lower_bound from s.records)))
          (room_of limit)
      ∙ ap (take (max 1 limit))
          (select-lower_bound c begin_key (last_key end_key) plain s.records placed))
  where
    from : Bytes
    from = build_composite_key c begin_key

    rest : Rest c begin_key (last_key end_key) plain (lower_bound from s.records)
    rest = lower_bound-Rest c begin_key (last_key end_key) plain s.records placed sorted
