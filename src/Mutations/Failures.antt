-- ===== src/Mutations/Failures.antt =====
-- Two ways in which memory and files part: a Put whose log write fails, and a Delete that rewrites a
-- log of the legacy text format.
use range_vec_kv.Base.{
  ◌≡◌, refl, ap, sym, subst, ◌∙◌, true, false, none, some, List, [], map, All, arith, inr, ◌++◌,
  ◌&&◌,
}
use range_vec_kv.Base.Bytes.{Bytes, bytes_eq_refl}
use range_vec_kv.OrderedMap.{Map, find, erase, values}
use range_vec_kv.OrderedMap.Laws.{find-erase, All-erase}
use range_vec_kv.OrderedMap.Sorted.{IsSorted, erase-IsSorted}
use range_vec_kv.OrderedMap.Fold.{find-assign_all}
use range_vec_kv.Status.{is_ok, ok_status, returned, value}
use range_vec_kv.Document.{DocumentRecord, key_of, build_composite_key}
use range_vec_kv.Codec.{
  Protobuf, WalEntry, put_entry, magic_header, encode_document_record, encode_wal_entry,
}
use range_vec_kv.Codec.Frames.{encode_frames}
use range_vec_kv.WalStore.{
  Io, Disk, WalStore, put_record, store_record, append_wal, write_wal, written, frames_of, get,
  recover, delete_record, append_delete, should_rewrite_legacy_wal, ensure_parent_directory,
}
use range_vec_kv.Durability.Entries.{apply_entries, assign_records, apply_entries-map_put}
use range_vec_kv.Durability.Files.{
  IsWorking, IsReadable, IsReadableDocument, Holds, replay_snapshot-Holds, replay_wal-Holds,
}
use range_vec_kv.Durability.Invariant.{IsFiled, assign_records-values}
use range_vec_kv.Mutations.Puts.{find-store_record}

module _ (pb : Protobuf) where
  -- The parent directory cannot be made, or the log cannot be opened.
  abbrev pub IsBroken : Io → Type 0
  IsBroken io = (is_ok (ensure_parent_directory io) && io.can_open) ≡ false

  write_wal_broken :
      (io : Io) (disk : Disk) (current : List DocumentRecord) (entries : List WalEntry)
      → IsBroken io
      → (is_ok (write_wal pb io disk current entries).0 ≡ false)
        × ((write_wal pb io disk current entries).1 ≡ disk)
  unfolding write_wal
  write_wal_broken io disk current entries h = ground arith

  get_found :
      (s : WalStore) (r : DocumentRecord)
      → find (key_of r) s.records ≡ some r
      → get s r.collection r.key ≡ value r
  unfolding get
  get_found s r e = rw (e, get)

  -- A Put of a new document whose log cannot be written answers with an error and leaves the files
  -- as they are, and yet Get finds the document afterwards.
  pub put_record_visible :
      (io : Io) (s : WalStore) (r : DocumentRecord)
      → IsBroken io
      → find (key_of r) s.records ≡ none
      → (is_ok (put_record pb io s r).0 ≡ false)
        × ((put_record pb io s r).1.disk ≡ s.disk)
        × (get (put_record pb io s r).1 r.collection r.key ≡ value r)
  unfolding put_record store_record append_wal
  put_record_visible io s r h e =
      rw (e, put_record)
        (
          (write_wal_broken io s.disk _ _ h).0,
          (write_wal_broken io s.disk _ _ h).1,
          get_found (store_record pb io s r).1 r
              (find-store_record pb io s r (key_of r) ∙ (rw (bytes_eq_refl (key_of r)))),
        )

  -- The log after a Delete that met a legacy log: one entry for each document that is left.
  rewritten : WalStore → Bytes → Bytes → List WalEntry
  rewritten s c k = map put_entry (values (erase (build_composite_key c k) s.records))

  delete_record-rewritten :
      (io : Io) (s : WalStore) (c k : Bytes)
      → IsWorking io
      → should_rewrite_legacy_wal io s.disk.wal ≡ true
      → delete_record pb io s c k ≡ (
        ok_status,
        record {
          records = erase (build_composite_key c k) s.records;
          disk = record s.disk {
            wal =
                some (magic_header ++ encode_frames (map (encode_wal_entry pb) (rewritten s c k)));
          };
        },
      )
  unfolding delete_record append_delete write_wal written frames_of rewritten
      ensure_parent_directory
  delete_record-rewritten io s c k w legacy = ground arith

  -- A store that was opened from a snapshot in the frame format and a log in the legacy format:
  -- Delete of a document that is in the snapshot answers ok and takes it out of memory, but the
  -- rewritten log has no entry for it, so Recover on the files finds the snapshot's document again.
  pub delete_record_resurrects :
      (io : Io) (s : WalStore) (docs : List DocumentRecord) (c k : Bytes) (r : DocumentRecord)
      → IsWorking io
      → should_rewrite_legacy_wal io s.disk.wal ≡ true
      → Holds pb s.disk.snapshot (map (encode_document_record pb) docs)
      → All (IsReadableDocument pb) docs
      → IsSorted s.records
      → All (IsFiled pb) s.records
      → All (IsReadable pb) (map put_entry (values (erase (build_composite_key c k) s.records)))
      → find (build_composite_key c k) (assign_records [] docs) ≡ some r
      → ((delete_record pb io s c k).0 ≡ ok_status)
        × (find (build_composite_key c k) (delete_record pb io s c k).1.records ≡ none)
        × (m : Map DocumentRecord) × (recover pb io (delete_record pb io s c k).1.disk
            ≡ returned (ok_status, m))
        × (find (build_composite_key c k) m ≡ some r)
  unfolding recover rewritten
  delete_record_resurrects io s docs c k r w legacy snap readable sorted filed entries found =
      subst
        (λ x.
          (x.0 ≡ ok_status)
          × (find (build_composite_key c k) x.1.records ≡ none)
          × (m : Map DocumentRecord) × (recover pb io x.1.disk ≡ returned (ok_status, m))
          × (find (build_composite_key c k) m ≡ some r))
        (sym (delete_record-rewritten io s c k w legacy))
        (refl, gone, apply_entries base (rewritten s c k), recovered, back)
    where
      composite : Bytes
      composite = build_composite_key c k

      left : Map DocumentRecord
      left = erase composite s.records

      base : Map DocumentRecord
      base = assign_records [] docs

      gone : find composite left ≡ none
      gone = find-erase composite composite s.records ∙ rw (bytes_eq_refl composite)

      recovered :
          recover pb io (record s.disk {
            wal =
                some (magic_header ++ encode_frames (map (encode_wal_entry pb) (rewritten s c k)));
          })
          ≡ returned (ok_status, apply_entries base (rewritten s c k))
      recovered =
          rw (replay_snapshot-Holds pb io s.disk.snapshot [] docs w readable snap, recover)
            (replay_wal-Holds pb io _ base (rewritten s c k) w entries (inr refl))

      back : find composite (apply_entries base (rewritten s c k)) ≡ some r
      back =
          ap (find composite) (
            apply_entries-map_put base (values left)
            ∙ assign_records-values pb base left (All-erase (IsFiled pb) composite s.records filed))
          ∙ find-assign_all composite base left (erase-IsSorted composite s.records sorted)
          ∙ (rw gone found)
