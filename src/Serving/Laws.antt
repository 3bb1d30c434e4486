-- ===== src/Serving/Laws.antt =====
-- What the gateway may rely on in a KvStore, and that WriteAheadKvStore of src/core/kv_store.cpp gives it.
-- RocksDbKvStore of the same file does not: its Range leaves the end key out and has no end at "\x7f", so
-- that `range_lem` is not so for it.
use range_vec_kv.Base.{
  ℕ, max, ◌≡◌, refl, ap, ◌∙◌, ◌⊎◌, inl, inr, true, some, All, take, arith, if_true,
}
use range_vec_kv.Base.Bytes.{Bytes, bytes_eq_refl}
use range_vec_kv.OrderedMap.{Map, find}
use range_vec_kv.OrderedMap.Sorted.{IsSorted}
use range_vec_kv.Status.{Status, value, is_ok}
use range_vec_kv.Document.{DocumentRecord, key_of, build_composite_key}
use range_vec_kv.Document.Keys.{IsPlain}
use range_vec_kv.Document.Mutation.{is_duplicate_mutation}
use range_vec_kv.Codec.{Protobuf}
use range_vec_kv.WalStore.{
  Io, WalStore, put_record, store_record, batch_put, delete_record, get, range, flush_snapshot,
}
use range_vec_kv.Scan.Select.{IsPlaced, select, last_key, range-select}
use range_vec_kv.Mutations.Puts.{
  Outcome, fresh, replaces, repeats, refused, put_record-Outcome, find-store_record,
}
use range_vec_kv.Gateway.{KvStore}

-- `documents` is the content of a store, `IsGood` what its operations keep.
pub record StoreLaws {Store : Type 0} (kv : KvStore Store) : Type 1 where
  pub documents : Store → Map DocumentRecord
  pub IsGood : Store → Type 0
  pub placed : (s : Store) → IsGood s → All IsPlaced (documents s)
  pub sorted : (s : Store) → IsGood s → IsSorted (documents s)
  pub range_lem :
      (s : Store) (c begin_key end_key : Bytes) (limit : ℕ)
      → IsGood s
      → IsPlain c
      → kv.range c begin_key end_key limit s
        ≡ value (take (max 1 limit) (select c begin_key (last_key end_key) (documents s)))
  pub get-put :
      (r : DocumentRecord) (s : Store)
      → is_ok (kv.put r s).0 ≡ true
      → (d : DocumentRecord) × (kv.get r.collection r.key (kv.put r s).1 ≡ value d)
        × ((d ≡ r) ⊎ (is_duplicate_mutation d r ≡ true))

-- WriteAheadKvStore as a KvStore, while the file system answers with `io`.
abbrev pub wal_kv : Protobuf → Io → KvStore WalStore
wal_kv pb io = record {
  put = λ r s. put_record pb io s r;
  batch_put = λ rs s. batch_put pb io s rs;
  delete = λ c k s. delete_record pb io s c k;
  get = λ c k s. get s c k;
  range = λ c begin_key end_key limit s. value (range s c begin_key end_key limit);
  flush_snapshot = λ s. flush_snapshot pb io s;
}

module _ (pb : Protobuf) (io : Io) where
  get_found :
      (s : WalStore) (c k : Bytes) (d : DocumentRecord)
      → find (build_composite_key c k) s.records ≡ some d
      → get s c k ≡ value d
  unfolding get
  get_found s c k d e = rw (e, get) refl

  stored_found :
      (s : WalStore) (r : DocumentRecord)
      → find (key_of r) (store_record pb io s r).1.records ≡ some r
  stored_found s r =
      find-store_record pb io s r (key_of r) ∙ if_true _ _ _ (bytes_eq_refl (key_of r))

  pub wal_get-put :
      (r : DocumentRecord) (s : WalStore)
      → is_ok (put_record pb io s r).0 ≡ true
      → (d : DocumentRecord) × (get (put_record pb io s r).1 r.collection r.key ≡ value d)
        × ((d ≡ r) ⊎ (is_duplicate_mutation d r ≡ true))
  wal_get-put r s = by_outcome (put_record-Outcome pb io s r)
    where
      by_outcome :
          {x : Status × WalStore}
          → Outcome pb io s r x
          → is_ok x.0 ≡ true
          → (d : DocumentRecord) × (get x.1 r.collection r.key ≡ value d)
            × ((d ≡ r) ⊎ (is_duplicate_mutation d r ≡ true))
      by_outcome (fresh e) h = (r, get_found _ r.collection r.key r (stored_found s r), inl refl)
      by_outcome (replaces old e new v) h =
          (r, get_found _ r.collection r.key r (stored_found s r), inl refl)
      by_outcome (repeats old e dup) h = (old, get_found s r.collection r.key old e, inr dup)
      by_outcome (refused old e v) h = absurd (ground (arith, h, v))

  abbrev pub wal_laws : StoreLaws (wal_kv pb io)
  wal_laws = record {
    documents = λ s. s.records;
    IsGood = λ s. All IsPlaced s.records × IsSorted s.records;
    placed = λ s good. good.0;
    sorted = λ s good. good.1;
    range_lem = λ s c begin_key end_key limit good plain.
        ap value (range-select s c begin_key end_key limit plain good.0 good.1);
    get-put = λ r s h. wal_get-put r s h;
  }
