-- ===== src/Serving/Ascending.antt =====
-- Pages of a collection: the documents above the last key of a page are those after the page.
use range_vec_kv.Base.{
  ◌≡◌, refl, ap, ◌∙◌, sym, subst, true, false, List, [], ◌∷◌, ◌++◌, All, if◌then◌else◌, arith,
  Bool-cases, inl, inr,
}
use range_vec_kv.Base.Bytes.{Bytes, bytes_lt, bytes_eq, bytes_eq→eq}
use range_vec_kv.OrderedMap.{Map}
use range_vec_kv.OrderedMap.Sorted.{IsSorted, Above}
use range_vec_kv.Document.{DocumentRecord, key_of, build_composite_key}
use range_vec_kv.Scan.Order.{bytes_lt-build_composite_key}
use range_vec_kv.Scan.Select.{IsPlaced, in_range, select}
use range_vec_kv.Gateway.{last_key_of, next_key}
use mathlib.Core.List.{append_assoc}

-- The documents whose key is not below `b`.
unfoldable pub from : Bytes → List DocumentRecord → List DocumentRecord
from b [] = []
from b (r ∷ rs) = if bytes_lt r.key b then from b rs else r ∷ from b rs

abbrev pub KeysAbove : Bytes → List DocumentRecord → Type 0
KeysAbove k rs = All (λ r. bytes_lt k r.key ≡ true) rs

abbrev pub IsAscending : List DocumentRecord → Type 0
IsAscending [] = Unit
IsAscending (r ∷ rs) = KeysAbove r.key rs × IsAscending rs

bytes_lt_nil : (k : Bytes) → bytes_lt k [] ≡ false
unfolding bytes_lt
bytes_lt_nil [] = refl
bytes_lt_nil (b ∷ bs) = refl

pub select-from :
    (c b last : Bytes) (m : Map DocumentRecord) → select c b last m ≡ from b (select c [] last m)
unfolding select from in_range
select-from c b last [] = refl
select-from c b last ((k, r) ∷ m) = ground (arith, bytes_lt_nil r.key, select-from c b last m)

-- What an entry above a document of the collection has a key above that document's.
select-KeysAbove :
    (c last : Bytes) (r : DocumentRecord) (m : Map DocumentRecord)
    → r.collection ≡ c
    → All IsPlaced m
    → Above (key_of r) m
    → KeysAbove r.key (select c [] last m)
unfolding select in_range
select-KeysAbove c last r [] e h a = tt
select-KeysAbove c last r ((k, s) ∷ m) e h a = elim (Bool-cases (bytes_eq s.collection c)) [
  | inl q ↦ elim (Bool-cases (in_range c [] last s)) [
    | inl p ↦ rw p (above (bytes_eq→eq s.collection c q), select-KeysAbove c last r m e h.1 a.1)
    | inr p ↦ rw p (select-KeysAbove c last r m e h.1 a.1)
  ]
  | inr q ↦ rw q (select-KeysAbove c last r m e h.1 a.1)
]
  where
    above : s.collection ≡ c → bytes_lt r.key s.key ≡ true
    above q =
        sym (bytes_lt-build_composite_key c r.key s.key)
        ∙ ap (λ x. bytes_lt (build_composite_key x r.key) (build_composite_key c s.key)) (sym e)
        ∙ ap (λ x. bytes_lt (key_of r) (build_composite_key x s.key)) (sym q)
        ∙ ap (bytes_lt (key_of r)) (sym h.0.0)
        ∙ a.0

pub select-IsAscending :
    (c last : Bytes) (m : Map DocumentRecord)
    → All IsPlaced m
    → IsSorted m
    → IsAscending (select c [] last m)
unfolding select in_range
select-IsAscending c last [] h s = tt
select-IsAscending c last ((k, r) ∷ m) h s = elim (Bool-cases (bytes_eq r.collection c)) [
  | inl q ↦ elim (Bool-cases (in_range c [] last r)) [
    | inl p ↦ rw p (
      select-KeysAbove c last r m (bytes_eq→eq r.collection c q) h.1
          (subst (λ x. Above x m) h.0.0 s.0),
      select-IsAscending c last m h.1 s.1,
    )
    | inr p ↦ rw p (select-IsAscending c last m h.1 s.1)
  ]
  | inr q ↦ rw q (select-IsAscending c last m h.1 s.1)
]

bytes_lt-next_key : (k l : Bytes) → bytes_lt k l ≡ true → bytes_lt k (next_key l) ≡ true
unfolding bytes_lt
bytes_lt-next_key [] [] h = refl
bytes_lt-next_key [] (y ∷ l) h = refl
bytes_lt-next_key (x ∷ k) [] h = ground arith
bytes_lt-next_key (x ∷ k) (y ∷ l) h = ground (arith, bytes_lt-next_key k l)

bytes_lt-next_key_self : (k : Bytes) → bytes_lt k (next_key k) ≡ true
unfolding bytes_lt
bytes_lt-next_key_self [] = refl
bytes_lt-next_key_self (x ∷ k) = ground (arith, bytes_lt-next_key_self k)

next_key-least : (k l : Bytes) → bytes_lt k l ≡ true → bytes_lt l (next_key k) ≡ false
unfolding bytes_lt
next_key-least [] [] h = ground arith
next_key-least [] (y ∷ l) h = ground (arith, bytes_lt_nil l)
next_key-least (x ∷ k) [] h = ground arith
next_key-least (x ∷ k) (y ∷ l) h = ground (arith, next_key-least k l)

from-KeysAbove : (k : Bytes) (rs : List DocumentRecord) → KeysAbove k rs → from (next_key k) rs ≡ rs
unfolding from
from-KeysAbove k [] h = refl
from-KeysAbove k (r ∷ rs) h = rw (next_key-least k r.key h.0, from-KeysAbove k rs h.1)

-- Everything up to a document is dropped above its key, and nothing else.
from-next_key :
    (done : List DocumentRecord) (r : DocumentRecord) (rest : List DocumentRecord)
    → IsAscending (done ++ r ∷ rest)
    → from (next_key r.key) (done ++ r ∷ rest) ≡ rest
unfolding from
from-next_key [] r rest h = rw (bytes_lt-next_key_self r.key) (from-KeysAbove r.key rest h.0)
from-next_key (d ∷ done) r rest h =
    rw (bytes_lt-next_key d.key r.key (reach done h.0)) (from-next_key done r rest h.1)
  where
    reach :
        (l : List DocumentRecord) → KeysAbove d.key (l ++ r ∷ rest) → bytes_lt d.key r.key ≡ true
    reach [] q = q.0
    reach (x ∷ l) q = reach l q.1

pub from-last_key_of :
    (done : List DocumentRecord) (r : DocumentRecord) (page rest : List DocumentRecord)
    → IsAscending (done ++ r ∷ (page ++ rest))
    → from (next_key (last_key_of (r ∷ page))) (done ++ r ∷ (page ++ rest)) ≡ rest
unfolding last_key_of
from-last_key_of done r [] rest h = from-next_key done r rest h
from-last_key_of done r (s ∷ page) rest h =
    ap (from (next_key (last_key_of (s ∷ page)))) (sym shift)
    ∙ from-last_key_of (done ++ r ∷ []) s page rest (subst IsAscending (sym shift) h)
  where
    shift : (done ++ r ∷ []) ++ s ∷ (page ++ rest) ≡ done ++ r ∷ (s ∷ (page ++ rest))
    shift = append_assoc done (r ∷ []) (s ∷ (page ++ rest))
