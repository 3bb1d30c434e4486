-- ===== src/WalStore/Write.antt =====
-- Put, BatchPut, Delete and FlushSnapshot of WriteAheadKvStore, and how they write the log.
use range_vec_kv.Base.{
  ℕ, Bool, true, false, Option, none, some, List, [], ◌∷◌, ◌++◌, map, if◌then◌else◌, ◌==◌,
}
use range_vec_kv.Base.Bytes.{Bytes, bytes, bytes_eq}
use range_vec_kv.OrderedMap.{Map, find, insert_or_assign, erase, values}
use range_vec_kv.Status.{
  Status, StatusOr, value, status, ok_status, internal, invalid_argument, is_ok,
}
use range_vec_kv.Document.{DocumentRecord, build_composite_key, key_of}
use range_vec_kv.Document.Mutation.{is_duplicate_mutation, validate_mutation, is_empty}
use range_vec_kv.Codec.{
  Protobuf, WalEntry, put, delete, put_entry, delete_entry, magic_header, encode_document_record,
  encode_wal_entry,
}
use range_vec_kv.Codec.Frames.{encode_frames}
use range_vec_kv.WalStore.State.{
  Io, Disk, WalStore, is_missing_or_empty, should_rewrite_legacy_wal, ensure_parent_directory,
  contents,
}

-- Whether a set of keys holds a key: `batch_keys.insert(key).second` is then false.
unfoldable pub contains : List Bytes → Bytes → Bool
contains [] k = false
contains (j ∷ js) k = if bytes_eq j k then true else contains js k

-- The variables of BatchPut's loop.
pub record Batch : Type 0 where
  pub batch_keys : List Bytes
  pub staged : Map DocumentRecord
  pub to_apply : List DocumentRecord

abbrev pub stage : Batch → DocumentRecord → Batch
stage b r = record b {
  staged = insert_or_assign (key_of r) r b.staged;
  to_apply = b.to_apply ++ r ∷ [];
}

-- One round of the loop, once the key is known to be new: a status that is not ok ends the call.
unfoldable pub stage_record : Batch → DocumentRecord → StatusOr Batch
stage_record b r = elim (find (key_of r) b.staged) [
  | none ↦ value (stage b r)
  | some existing ↦
      if is_ok (validate_mutation existing r)
      then value (if is_duplicate_mutation existing r then b else stage b r)
      else status (validate_mutation existing r)
]

unfoldable pub batch_step : Batch → DocumentRecord → StatusOr Batch
batch_step b r =
    if contains b.batch_keys (key_of r)
    then status (
        invalid_argument
          (bytes "kv batch contains duplicate key: " ++ r.collection ++ bytes ":" ++ r.key))
    else stage_record (record b { batch_keys = key_of r ∷ b.batch_keys }) r

unfoldable pub batch_loop : Batch → List DocumentRecord → StatusOr Batch
batch_loop b [] = value b
batch_loop b (r ∷ rs) = elim (batch_step b r) [
  | value b' ↦ batch_loop b' rs
  | status st ↦ status st
]

module _ (pb : Protobuf) where
  unfoldable pub frames_of : List WalEntry → Bytes
  frames_of entries = encode_frames (map (encode_wal_entry pb) entries)

  -- The log after a write: `current` is what a rewrite of a legacy log puts in its place.
  unfoldable pub written : Io → Option Bytes → List DocumentRecord → List WalEntry → Bytes
  written io wal current entries =
      if should_rewrite_legacy_wal io wal
      then magic_header ++ frames_of (map put_entry current)
      else (if is_missing_or_empty wal
          then magic_header ++ frames_of entries
          else contents wal ++ frames_of entries)

  -- What AppendWalLocked, AppendWalBatchLocked and AppendDeleteLocked have in common.
  unfoldable pub write_wal : Io → Disk → List DocumentRecord → List WalEntry → Status × Disk
  write_wal io disk current entries =
      if is_ok (ensure_parent_directory io)
      then (if io.can_open
          then (ok_status, record disk { wal = some (written io disk.wal current entries) })
          else (internal (bytes "failed to open wal file for writing"), disk))
      else (ensure_parent_directory io, disk)

  -- AppendWalLocked(operation, record): the entry of a 'D' names no document.
  unfoldable pub append_wal : Io → WalStore → ℕ → DocumentRecord → Status × Disk
  append_wal io s operation r =
      write_wal io s.disk (values s.records)
        (record (put_entry r) { operation = if operation == b'D' then delete else put } ∷ [])

  -- AppendWalBatchLocked(records, snapshot_after)
  unfoldable pub append_wal_batch :
      Io → WalStore → List DocumentRecord → Map DocumentRecord → Status × Disk
  append_wal_batch io s records snapshot_after =
      write_wal io s.disk (values snapshot_after) (map put_entry records)

  -- AppendDeleteLocked(collection, key)
  unfoldable pub append_delete : Io → WalStore → Bytes → Bytes → Status × Disk
  append_delete io s collection key =
      write_wal io s.disk (values s.records) (delete_entry collection key ∷ [])

  -- `records_[composite_key] = record` and then the log.
  unfoldable pub store_record : Io → WalStore → DocumentRecord → Status × WalStore
  store_record io s r =
      let s' : WalStore = record s { records = insert_or_assign (key_of r) r s.records } in
      let (st, disk) = append_wal io s' b'P' r in (st, record s' { disk = disk })

  unfoldable pub put_record : Io → WalStore → DocumentRecord → Status × WalStore
  unfolding store_record
  put_record io s r = elim (find (key_of r) s.records) [
    | none ↦ store_record io s r
    | some existing ↦
        if is_ok (validate_mutation existing r)
        then (if is_duplicate_mutation existing r then (ok_status, s) else store_record io s r)
        else (validate_mutation existing r, s)
  ]

  -- The end of BatchPut: the log first, and the map only if the log was written.
  unfoldable pub commit_batch : Io → WalStore → Batch → Status × WalStore
  commit_batch io s b =
      if is_empty b.to_apply
      then (ok_status, s)
      else (let (st, disk) = append_wal_batch io s b.to_apply b.staged in
          if is_ok st
          then (ok_status, record s { records = b.staged; disk = disk })
          else (st, record s { disk = disk }))

  unfoldable pub batch_put : Io → WalStore → List DocumentRecord → Status × WalStore
  batch_put io s rs =
      elim (batch_loop (record { batch_keys = []; staged = s.records; to_apply = [] }) rs) [
        | status st ↦ (st, s)
        | value b ↦ commit_batch io s b
      ]

  -- Delete(collection, key)
  unfoldable pub delete_record : Io → WalStore → Bytes → Bytes → Status × WalStore
  delete_record io s collection key =
      let s' : WalStore = record s {
        records = erase (build_composite_key collection key) s.records;
      } in
      let (st, disk) = append_delete io s' collection key in (st, record s' { disk = disk })

  -- FlushSnapshot()
  unfoldable pub flush_snapshot : Io → WalStore → Status × WalStore
  flush_snapshot io s =
      if is_ok (ensure_parent_directory io)
      then (if io.can_open
          then (
            ok_status,
            record s {
              disk = record s.disk {
                snapshot = some (
                    magic_header
                    ++ encode_frames (map (encode_document_record pb) (values s.records)));
              };
            },
          )
          else (internal (bytes "failed to open snapshot file for writing"), s))
      else (ensure_parent_directory io, s)
