-- ===== src/Examples/Scans.antt =====
-- A store at which the theorems about Range are applied.
use range_vec_kv.Base.{◌≡◌, refl, max, [], ◌∷◌, All, take, arith}
use range_vec_kv.Base.Bytes.{bytes, bytes_lt}
use range_vec_kv.OrderedMap.Sorted.{IsSorted}
use range_vec_kv.Document.{DocumentRecord, key_of, build_composite_key}
use range_vec_kv.WalStore.{WalStore, range}
use range_vec_kv.Durability.Run.{empty_disk}
use range_vec_kv.Scan.Select.{IsPlaced, select, last_key, range-select}
use range_vec_kv.Scan.HighKeys.{IsLow, range-IsLow}
use range_vec_kv.Examples.Stores.{apple, banana}

-- A document whose key begins with the UTF-8 bytes of "é".
abbrev accented : DocumentRecord
accented = record apple { key = 0xc3 ∷ 0xa9 ∷ [] }

abbrev pub three : WalStore
three = record {
  records = (key_of apple, apple) ∷ (key_of banana, banana) ∷ (key_of accented, accented) ∷ [];
  disk = empty_disk;
}

pub three-IsSorted : IsSorted three.records
unfolding bytes_lt build_composite_key
three-IsSorted = ((refl, (refl, tt)), ((refl, tt), (tt, tt)))

pub three-IsPlaced : All IsPlaced three.records
three-IsPlaced = ((refl, omega arith), ((refl, omega arith), ((refl, omega arith), tt)))

range-select_example :
    range three (bytes "docs") (bytes "a") (bytes "b") 10
    ≡ take (max 1 10) (select (bytes "docs") (bytes "a") (last_key (bytes "b")) three.records)
range-select_example =
    range-select three (bytes "docs") (bytes "a") (bytes "b") 10 (omega arith) three-IsPlaced
      three-IsSorted

range-IsLow_example : All (λ r. IsLow r.key) (range three (bytes "docs") [] [] 10)
range-IsLow_example =
    range-IsLow three (bytes "docs") [] 10 (omega arith) three-IsPlaced three-IsSorted
