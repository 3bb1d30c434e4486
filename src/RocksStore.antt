-- ===== src/RocksStore.antt =====
-- RocksDbKvStore of src/core/kv_store.cpp, over the RocksDB interface that it calls. A handle of a
-- column family is written as the name that it was made for; the locks of the key stripes make
-- each operation on a key atomic.
pub mod Visible
use range_vec_kv.Base.{
  ℕ, suc, leb, not, Bool, true, false, ◌||◌, ◌&&◌, Option, none, some, List, [], ◌∷◌, ◌++◌,
  if◌then◌else◌,
}
use range_vec_kv.Base.Bytes.{Bytes, bytes, bytes_lt}
use range_vec_kv.OrderedMap.{Map, find, insert_or_assign, keys}
use range_vec_kv.Status.{
  Status, StatusOr, value, status, ok_status, internal, invalid_argument, unavailable, not_found,
  is_ok, Try, returned, raised,
}
use range_vec_kv.Document.{DocumentRecord, build_composite_key, key_of}
use range_vec_kv.Document.Mutation.{is_duplicate_mutation, validate_mutation, is_empty}
use range_vec_kv.Codec.{Protobuf, encode_document_record, decode_document_record}
use range_vec_kv.Legacy.{deserialize_record}
use range_vec_kv.WalStore.{contains}

-- What DB::Get answers: a value, a status that is NotFound, or another one with its text.
pub data Answer : Type 0 where
  found : Bytes → Answer
  missing : Answer
  broken : Bytes → Answer

-- The calls of RocksDB. A call that can fail gives the text of its status then.
pub record RocksDb (World : Type 0) : Type 0 where
  pub create_column_family : Bytes → World → Bool × World
  pub get : World → Bytes → Bytes → Answer
  pub put : Bytes → Bytes → Bytes → World → Option Bytes × World
  pub write : List (Bytes × (Bytes × Bytes)) → World → Option Bytes × World
  pub delete : Bytes → Bytes → World → Option Bytes × World
  pub seek : World → Bytes → Option Bytes → List (Bytes × Bytes)
  pub flush : World → World

-- `db_` and `column_families_`.
pub record RocksStore (World : Type 0) : Type 0 where
  pub db : Option World
  pub column_families : Map {0} Unit

module _ {World : Type 0} (pb : Protobuf) (rocks : RocksDb World) where
  abbrev not_initialized : Status
  not_initialized = unavailable (bytes "rocksdb store not initialized")

  abbrev no_column_family : DocumentRecord → Status
  no_column_family r =
      internal (bytes "failed to get column family for collection: " ++ r.collection)

  -- GetColumnFamily(collection)
  unfoldable pub has_column_family : RocksStore World → Bytes → Bool
  has_column_family s c = elim (find c s.column_families) [ none ↦ false | some u ↦ true ]

  -- GetOrCreateColumnFamily(collection): whether there is a handle in the end.
  unfoldable pub get_or_create_column_family :
      RocksStore World → World → Bytes → Bool × (Map {0} Unit × World)
  get_or_create_column_family s w c =
      let (made, w') = rocks.create_column_family c w in
      if has_column_family s c
      then (true, (s.column_families, w))
      else (if made
          then (true, (insert_or_assign c tt s.column_families, w'))
          else (false, (s.column_families, w')))

  -- DecodeStoredRecord(encoded): what is no message, or one without a collection or a key, is read as
  -- a line of the legacy format, which may throw.
  unfoldable pub decode_stored_record : Bytes → Try (StatusOr DocumentRecord)
  decode_stored_record text = elim (decode_document_record pb text) [
    | status st ↦ deserialize_record text
    | value r ↦
        if not (is_empty r.collection) && not (is_empty r.key)
        then returned (value r)
        else deserialize_record text
  ]

  -- The answer to a mutation of a stored document: whether it is a repetition.
  unfoldable pub check_existing : DocumentRecord → DocumentRecord → StatusOr Bool
  check_existing existing r =
      if is_ok (validate_mutation existing r)
      then value (is_duplicate_mutation existing r)
      else status (validate_mutation existing r)

  -- The read before a write. `what` is how the message of a failure begins.
  unfoldable pub check_stored : Bytes → Answer → DocumentRecord → Try (StatusOr Bool)
  check_stored what missing r = returned (value false)
  check_stored what (broken e) r = returned (status (internal (what ++ e)))
  check_stored what (found text) r = elim (decode_stored_record text) [
    | raised ↦ raised
    | returned (status st) ↦ returned (status st)
    | returned (value existing) ↦ returned (check_existing existing r)
  ]

  -- The status of a write that RocksDB has answered.
  unfoldable pub written_status : Bytes → Option Bytes → Status
  written_status what none = ok_status
  written_status what (some e) = internal (what ++ e)

  -- The end of Put, once the column family is there.
  unfoldable pub put_checked :
      RocksStore World
      → World
      → DocumentRecord
      → Try (StatusOr Bool)
      → Try Status × RocksStore World
  put_checked s w r raised = (raised, record s { db = some w })
  put_checked s w r (returned (status st)) = (returned st, record s { db = some w })
  put_checked s w r (returned (value true)) = (returned ok_status, record s { db = some w })
  put_checked s w r (returned (value false)) =
      let (e, w') = rocks.put r.collection r.key (encode_document_record pb r) w in
      (returned (written_status (bytes "rocksdb put failed: ") e), record s { db = some w' })

  -- Put after the call of GetOrCreateColumnFamily.
  unfoldable pub put_in_family :
      DocumentRecord → Bool × (Map {0} Unit × World) → Try Status × RocksStore World
  put_in_family r (there, (families, w)) =
      let s : RocksStore World = record { db = some w; column_families = families } in
      if there
      then put_checked s w r (
          check_stored (bytes "rocksdb get-before-put failed: ") (rocks.get w r.collection r.key) r)
      else (returned (no_column_family r), s)

  -- Put(record)
  unfoldable pub rocks_put : RocksStore World → DocumentRecord → Try Status × RocksStore World
  rocks_put s r = elim s.db [
    | none ↦ (returned not_initialized, s)
    | some w ↦ put_in_family r (get_or_create_column_family s w r.collection)
  ]

  -- The first loop of BatchPut, which looks for a key that occurs twice.
  unfoldable pub duplicate_in_batch : List Bytes → List DocumentRecord → Option Status
  duplicate_in_batch seen [] = none
  duplicate_in_batch seen (r ∷ rs) =
      let later = duplicate_in_batch (key_of r ∷ seen) rs in
      if contains seen (key_of r)
      then some (
          invalid_argument
            (bytes "kv batch contains duplicate key: " ++ r.collection ++ bytes ":" ++ r.key))
      else later

  abbrev WriteBatch : Type 0
  WriteBatch = List (Bytes × (Bytes × Bytes))

  unfoldable pub add_to_batch : WriteBatch → DocumentRecord → Bool → WriteBatch
  add_to_batch batch r duplicate =
      if duplicate
      then batch
      else batch ++ (r.collection, (r.key, encode_document_record pb r)) ∷ []

  -- The second loop of BatchPut: the batch, or the status that ends the call.
  unfoldable pub rocks_batch_loop :
      RocksStore World
      → World
      → WriteBatch
      → List DocumentRecord
      → Try (StatusOr WriteBatch) × RocksStore World
  rocks_batch_loop s w batch [] = (returned (value batch), record s { db = some w })
  rocks_batch_loop s w batch (r ∷ rs) =
      let (there, (families, w')) = get_or_create_column_family s w r.collection in
      let s' : RocksStore World = record { db = some w'; column_families = families } in
      let checked =
        check_stored (bytes "rocksdb get-before-batch-put failed: ")
          (rocks.get w' r.collection r.key) r in
      elim there [
        | false ↦ (returned (status (no_column_family r)), s')
        | true ↦ elim checked [
          | raised ↦ (raised, s')
          | returned (status st) ↦ (returned (status st), s')
          | returned (value duplicate) ↦ rocks_batch_loop s' w' (add_to_batch batch r duplicate) rs
        ]
      ]

  unfoldable pub write_batch :
      Try (StatusOr WriteBatch) → RocksStore World → Try Status × RocksStore World
  write_batch raised s = (raised, s)
  write_batch (returned (status st)) s = (returned st, s)
  write_batch (returned (value batch)) s = elim s.db [
    | none ↦ (returned not_initialized, s)
    | some w ↦
        let (e, w') = rocks.write batch w in
        (
          returned (written_status (bytes "rocksdb batch put failed: ") e),
          record s { db = some w' },
        )
  ]

  -- BatchPut(records)
  unfoldable pub rocks_batch_put :
      RocksStore World → List DocumentRecord → Try Status × RocksStore World
  rocks_batch_put s rs = elim s.db [
    | none ↦ (returned not_initialized, s)
    | some w ↦ elim (duplicate_in_batch [] rs) [
      | some st ↦ (returned st, s)
      | none ↦ let (batch, s') = rocks_batch_loop s w [] rs in write_batch batch s'
    ]
  ]

  -- Delete(collection, key): where there can be no column family there is nothing to delete.
  unfoldable pub rocks_delete : RocksStore World → Bytes → Bytes → Status × RocksStore World
  rocks_delete s c k = elim s.db [
    | none ↦ (not_initialized, s)
    | some w ↦
        let (there, (families, w')) = get_or_create_column_family s w c in
        let (e, w'') = rocks.delete c k w' in
        if there
        then (
          written_status (bytes "rocksdb delete failed: ") e,
          record { db = some w''; column_families = families },
        )
        else (ok_status, record { db = some w'; column_families = families })
  ]

  unfoldable pub read_answer : Answer → Try (StatusOr DocumentRecord)
  read_answer missing = returned (status (not_found (bytes "document not found")))
  read_answer (broken e) = returned (status (internal (bytes "rocksdb get failed: " ++ e)))
  read_answer (found text) = decode_stored_record text

  -- Get(collection, key)
  unfoldable pub rocks_get : RocksStore World → Bytes → Bytes → Try (StatusOr DocumentRecord)
  rocks_get s c k = elim s.db [
    | none ↦ returned (status not_initialized)
    | some w ↦
        if has_column_family s c
        then read_answer (rocks.get w c k)
        else returned (status (not_found (bytes "document not found (collection does not exist)")))
  ]

  -- The references by collection, in the order of the collections' names.
  unfoldable pub collection_groups : Map (List Bytes) → List (Bytes × Bytes) → Map (List Bytes)
  collection_groups groups [] = groups
  collection_groups groups ((c, k) ∷ rest) =
      collection_groups
        (insert_or_assign c (elim (find c groups) [ none ↦ k ∷ [] | some ks ↦ ks ++ k ∷ [] ])
          groups)
        rest

  -- The documents that are read for one collection: keys that are missing, cannot be read or cannot be
  -- decoded are passed over. DB::MultiGet answers as DB::Get does for each key.
  unfoldable pub read_group :
      World → Bytes → List DocumentRecord → List Bytes → Try (List DocumentRecord)
  read_group w c results [] = returned results
  read_group w c results (k ∷ ks) = elim (rocks.get w c k) [
    | missing ↦ read_group w c results ks
    | broken e ↦ read_group w c results ks
    | found text ↦ elim (decode_stored_record text) [
      | raised ↦ raised
      | returned (status st) ↦ read_group w c results ks
      | returned (value r) ↦ read_group w c (results ++ r ∷ []) ks
    ]
  ]

  unfoldable pub read_groups :
      RocksStore World → World → List DocumentRecord → Map (List Bytes) → Try (List DocumentRecord)
  read_groups s w results [] = returned results
  read_groups s w results ((c, ks) ∷ rest) = elim (has_column_family s c) [
    | false ↦ read_groups s w results rest
    | true ↦ elim (read_group w c results ks) [
      | raised ↦ raised
      | returned more ↦ read_groups s w more rest
    ]
  ]

  -- MultiGet(references): of a reference it reads the collection and the key.
  unfoldable pub rocks_multi_get :
      RocksStore World → List (Bytes × Bytes) → Try (StatusOr (List DocumentRecord))
  rocks_multi_get s references = elim s.db [
    | none ↦ returned (status not_initialized)
    | some w ↦ elim (read_groups s w [] (collection_groups [] references)) [
      | raised ↦ raised
      | returned results ↦ returned (value results)
    ]
  ]

  -- The loop of Range over the iterator's entries, after `taken` results.
  unfoldable pub rocks_range_loop :
      Bytes
      → ℕ
      → List DocumentRecord
      → ℕ
      → List (Bytes × Bytes)
      → Try (StatusOr (List DocumentRecord))
  rocks_range_loop end_key limit results taken [] = returned (value results)
  rocks_range_loop end_key limit results taken ((k, text) ∷ rest) =
      if not (is_empty end_key) && not (bytes_lt k end_key)
      then returned (value results)
      else elim (decode_stored_record text) [
        | raised ↦ raised
        | returned (status st) ↦ returned (status st)
        | returned (value r) ↦
            let more = rocks_range_loop end_key limit (results ++ r ∷ []) (suc taken) rest in
            if leb limit (suc taken) then returned (value (results ++ r ∷ [])) else more
      ]

  -- Range(collection, begin_key, end_key, limit)
  unfoldable pub rocks_range :
      RocksStore World → Bytes → Bytes → Bytes → ℕ → Try (StatusOr (List DocumentRecord))
  rocks_range s c begin_key end_key limit = elim s.db [
    | none ↦ returned (status not_initialized)
    | some w ↦
        if has_column_family s c
        then rocks_range_loop end_key limit [] 0
            (rocks.seek w c (if is_empty begin_key then none else some begin_key))
        else returned (value [])
  ]

  -- Collections()
  unfoldable pub rocks_collections : RocksStore World → List Bytes
  rocks_collections s = keys s.column_families

  -- FlushSnapshot()
  unfoldable pub rocks_flush : RocksStore World → Status × RocksStore World
  rocks_flush s = elim s.db [
    | none ↦ (ok_status, s)
    | some w ↦ (ok_status, record s { db = some (rocks.flush w) })
  ]
