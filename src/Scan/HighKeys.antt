-- ===== src/Scan/HighKeys.antt =====
-- What an empty end key leaves out: a scan to the end stops at the text "\x7f".
use range_vec_kv.Base.{
  ℕ, zero, suc, ◌≤◌, ◌≡◌, sym, subst, max, true, false, List, [], ◌∷◌, All, take, Bool-cases, inl,
  inr, arith,
}
use range_vec_kv.Base.Bytes.{Bytes, bytes_lt}
use range_vec_kv.OrderedMap.{Map}
use range_vec_kv.OrderedMap.Sorted.{IsSorted}
use range_vec_kv.Document.{DocumentRecord}
use range_vec_kv.Document.Keys.{IsPlain}
use range_vec_kv.WalStore.{WalStore, range}
use range_vec_kv.Scan.Select.{IsPlaced, in_range, select, range-select}

-- The first byte of the key is an ASCII character.
abbrev pub IsLow : Bytes → Type 0
IsLow [] = Unit
IsLow (b ∷ rest) = b ≤ 0x7f

in_range-IsLow :
    (c begin : Bytes) (r : DocumentRecord) → in_range c begin (0x7f ∷ []) r ≡ true → IsLow r.key
unfolding in_range bytes_lt
in_range-IsLow c begin r h = low r.key (ground arith)
  where
    low : (k : Bytes) → bytes_lt (0x7f ∷ []) k ≡ false → IsLow k
    low [] e = tt
    low (b ∷ rest) e = ground (arith, e)

select-IsLow :
    (c begin : Bytes) (m : Map DocumentRecord)
    → All (λ r. IsLow r.key) (select c begin (0x7f ∷ []) m)
unfolding select
select-IsLow c begin [] = tt
select-IsLow c begin ((k, r) ∷ m) = elim (Bool-cases (in_range c begin (0x7f ∷ []) r)) [
  | inl e ↦ rw e (in_range-IsLow c begin r e, select-IsLow c begin m)
  | inr e ↦ rw e (select-IsLow c begin m)
]

take-All {ℓ κ} : {A : Type ℓ} (P : A → Type κ) (n : ℕ) (xs : List A) → All P xs → All P (take n xs)
take-All P zero xs h = tt
take-All P (suc n) [] h = tt
take-All P (suc n) (x ∷ xs) h = (h.0, take-All P n xs h.1)

-- A scan with an empty end key, whatever its begin key and its limit, never returns a document whose
-- key begins with a byte above 0x7f, as every key with a first character outside ASCII does in
-- UTF-8. This holds on a store whose documents stand under their keys, in key order, with no
-- separator in the collection's name.
pub range-IsLow :
    (s : WalStore) (c begin_key : Bytes) (limit : ℕ)
    → IsPlain c
    → All IsPlaced s.records
    → IsSorted s.records
    → All (λ r. IsLow r.key) (range s c begin_key [] limit)
range-IsLow s c begin_key limit plain placed sorted =
    subst (All (λ r. IsLow r.key)) (sym (range-select s c begin_key [] limit plain placed sorted))
      (take-All (λ r. IsLow r.key) (max 1 limit) _ (select-IsLow c begin_key s.records))
