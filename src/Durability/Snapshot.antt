-- ===== src/Durability/Snapshot.antt =====
-- FlushSnapshot writes all documents to the snapshot and leaves the log, which then is replayed over
-- documents that have its entries already.
use range_vec_kv.Base.{◌≡◌, refl, ap, sym, subst, ◌∙◌, inr, [], map, ◌++◌, some, arith}
use range_vec_kv.OrderedMap.{values}
use range_vec_kv.OrderedMap.Fold.{assign_all_self}
use range_vec_kv.Status.{ok_status}
use range_vec_kv.Codec.{Protobuf, magic_header, encode_document_record}
use range_vec_kv.Codec.Frames.{encode_frames}
use range_vec_kv.WalStore.{Io, WalStore, flush_snapshot, ensure_parent_directory}
use range_vec_kv.Durability.Entries.{
  apply_entries, assign_records, apply_entries_idem, assign_records-IsSorted,
}
use range_vec_kv.Durability.Files.{IsWorking}
use range_vec_kv.Durability.Invariant.{
  Durable, Durable-IsSorted, assign_records-values, values_readable,
}

module _ (pb : Protobuf) where
  after_flush : WalStore → WalStore
  after_flush s = record s {
    disk = record s.disk {
      snapshot =
          some (magic_header ++ encode_frames (map (encode_document_record pb) (values s.records)));
    };
  }

  flush_snapshot-after :
      (io : Io) (s : WalStore) → IsWorking io → flush_snapshot pb io s ≡ (ok_status, after_flush s)
  unfolding flush_snapshot ensure_parent_directory after_flush
  flush_snapshot-after io s w = ground arith

  after_flush-Durable : (s : WalStore) → Durable pb s → Durable pb (after_flush s)
  unfolding after_flush
  after_flush-Durable s d = record {
    docs = values s.records;
    entries = d.entries;
    snapshot_holds = inr refl;
    wal_holds = d.wal_holds;
    docs_readable = values_readable pb s.records d.filed;
    entries_readable = d.entries_readable;
    records_replayed =
        d.records_replayed
        ∙ sym (
            apply_entries_idem (assign_records [] d.docs) d.entries
              (assign_records-IsSorted [] d.docs tt))
        ∙ ap (λ m. apply_entries m d.entries)
            (sym d.records_replayed
              ∙ sym (
                  assign_records-values pb [] s.records d.filed
                  ∙ assign_all_self s.records (Durable-IsSorted pb s d)));
    filed = d.filed;
  }

  pub flush_snapshot-Durable :
      (io : Io) (s : WalStore)
      → IsWorking io
      → Durable pb s
      → ((flush_snapshot pb io s).0 ≡ ok_status) × Durable pb (flush_snapshot pb io s).1
  flush_snapshot-Durable io s w d =
      subst (λ x. (x.0 ≡ ok_status) × Durable pb x.1) (sym (flush_snapshot-after io s w))
        (refl, after_flush-Durable s d)
