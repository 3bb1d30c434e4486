-- ===== src/Examples/Rocks.antt =====
-- A database in memory at which the theorem about the RocksDB store is applied.
use range_vec_kv.Base.{◌&&◌, refl, ap, sym, ◌∙◌, true, none, some, List, [], ◌∷◌, if◌then◌else◌}
use range_vec_kv.Base.Bytes.{Bytes, bytes_eq, bytes_eq_refl}
use range_vec_kv.OrderedMap.{find}
use range_vec_kv.Durability.Steps.{storable_document}
use range_vec_kv.RocksStore.{
  RocksDb, RocksStore, Answer, found, missing, rocks_put, put_in_family, put_checked, check_stored,
  get_or_create_column_family, has_column_family, written_status,
}
use range_vec_kv.RocksStore.Visible.{RocksLaws, Shows, rocks_put-Shows}
use range_vec_kv.Examples.Format.{format, format_laws}
use range_vec_kv.Examples.Stores.{apple, apple-IsStorable}

-- The writes, the last one first.
abbrev Writes : Type 0
Writes = List (Bytes × (Bytes × Bytes))

last_value : Writes → Bytes → Bytes → Answer
last_value [] c k = missing
last_value ((d, (j, v)) ∷ w) c k =
    let older = last_value w c k in if bytes_eq c d && bytes_eq k j then found v else older

abbrev in_memory : RocksDb Writes
in_memory = record {
  create_column_family = λ c w. (true, w);
  get = last_value;
  put = λ c k v w. (none, (c, (k, v)) ∷ w);
  write = λ batch w. (none, w);
  delete = λ c k w. (none, w);
  seek = λ w c k. [];
  flush = λ w. w;
}

in_memory_laws : RocksLaws in_memory
unfolding last_value
in_memory_laws = record {
  get-put = λ c k v w w' p.
      ap (λ x. last_value x c k) (sym (ap (λ x. x.1) p)) ∙ (rw (bytes_eq_refl c, bytes_eq_refl k));
}

abbrev fresh : RocksStore Writes
fresh = record { db = some []; column_families = [] }

rocks_put-Shows_example :
    Shows format in_memory in_memory_laws (rocks_put format in_memory fresh apple).1 apple
unfolding rocks_put put_in_family put_checked check_stored get_or_create_column_family
    has_column_family written_status last_value find
rocks_put-Shows_example =
    rocks_put-Shows format in_memory in_memory_laws fresh apple
      (storable_document format format_laws apple apple-IsStorable) refl refl refl
