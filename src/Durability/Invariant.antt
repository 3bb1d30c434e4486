-- ===== src/Durability/Invariant.antt =====
-- The invariant of a store whose files hold all that is in its memory, and what it is for.
use range_vec_kv.Base.{◌≡◌, refl, ap, sym, subst, ◌∙◌, List, [], ◌∷◌, map, All}
use range_vec_kv.Base.Bytes.{Bytes}
use range_vec_kv.OrderedMap.{Map, values, insert_or_assign}
use range_vec_kv.OrderedMap.Fold.{assign_all}
use range_vec_kv.OrderedMap.Sorted.{IsSorted}
use range_vec_kv.Status.{ok_status, returned}
use range_vec_kv.Document.{DocumentRecord, key_of}
use range_vec_kv.Codec.{Protobuf, WalEntry, encode_document_record, encode_wal_entry}
use range_vec_kv.WalStore.{Io, WalStore, recover}
use range_vec_kv.Durability.Entries.{
  apply_entries, assign_records, apply_entries-IsSorted, assign_records-IsSorted,
}
use range_vec_kv.Durability.Files.{
  IsWorking, IsReadable, IsReadableDocument, Holds, replay_snapshot-Holds, replay_wal-Holds,
}

module _ (pb : Protobuf) where
  -- A document stands under its own key and can be read back.
  abbrev pub IsFiled : Bytes × DocumentRecord → Type 0
  IsFiled (k, r) = (k ≡ key_of r) × IsReadableDocument pb r

  pub record Durable (s : WalStore) : Type 0 where
    pub docs : List DocumentRecord
    pub entries : List WalEntry
    pub snapshot_holds : Holds pb s.disk.snapshot (map (encode_document_record pb) docs)
    pub wal_holds : Holds pb s.disk.wal (map (encode_wal_entry pb) entries)
    pub docs_readable : All (IsReadableDocument pb) docs
    pub entries_readable : All (IsReadable pb) entries
    pub records_replayed : s.records ≡ apply_entries (assign_records [] docs) entries
    pub filed : All IsFiled s.records

  pub Durable-IsSorted : (s : WalStore) → Durable s → IsSorted s.records
  Durable-IsSorted s d =
      subst IsSorted (sym d.records_replayed)
        (apply_entries-IsSorted _ d.entries (assign_records-IsSorted [] d.docs tt))

  -- Assigning the documents of a map one by one is copying the map.
  pub assign_records-values :
      (acc m : Map DocumentRecord)
      → All IsFiled m
      → assign_records acc (values m) ≡ assign_all acc m
  unfolding assign_records assign_all values
  assign_records-values acc [] h = refl
  assign_records-values acc ((k, r) ∷ m) h =
      rw h.0.0 (assign_records-values (insert_or_assign (key_of r) r acc) m h.1)

  pub values_readable :
      (m : Map DocumentRecord) → All IsFiled m → All (IsReadableDocument pb) (values m)
  unfolding values
  values_readable [] h = tt
  values_readable ((k, r) ∷ m) h = (h.0.1, values_readable m h.1)

  -- Opening the files of such a store gives its documents.
  pub recover-Durable :
      (io : Io) (s : WalStore)
      → IsWorking io
      → Durable s
      → recover pb io s.disk ≡ returned (ok_status, s.records)
  unfolding recover
  recover-Durable io s w d =
      rw
        (
          replay_snapshot-Holds pb io s.disk.snapshot [] d.docs w d.docs_readable d.snapshot_holds,
          recover,
        )
        (replay_wal-Holds pb io s.disk.wal _ d.entries w d.entries_readable d.wal_holds
          ∙ ap (λ m. returned (ok_status, m)) (sym d.records_replayed))
