-- ===== src/Durability/Steps.antt =====
-- Each mutation of a store, with files that can be written, keeps all of its documents in the files.
use range_vec_kv.Base.{
  ◌≡◌, refl, ap, sym, subst, ◌∙◌, true, Option-cases, Bool-cases, inl, inr, List, [], ◌∷◌, ◌++◌,
  map, All, All-append, some,
}
use range_vec_kv.Base.Bytes.{Bytes}
use range_vec_kv.OrderedMap.{find}
use range_vec_kv.OrderedMap.Laws.{All-insert_or_assign, All-erase}
use range_vec_kv.Status.{Status, ok_status, is_ok}
use range_vec_kv.Document.{DocumentRecord, key_of, build_composite_key}
use range_vec_kv.Document.Mutation.{validate_mutation, is_duplicate_mutation}
use range_vec_kv.Codec.{
  Protobuf, ProtobufLaws, WalEntry, put_entry, delete_entry, magic_header, encode_wal_entry,
  wal_message,
}
use range_vec_kv.Codec.Frames.{encode_frames}
use range_vec_kv.Codec.Records.{
  IsStorable, decode_document_record-encode_document_record, decode-encode_put,
  decode-encode_delete, encode_document_record-FitsFrame, encode_wal_entry-FitsFrame,
}
use range_vec_kv.WalStore.{
  Io, WalStore, append_wal, append_delete, store_record, put_record, delete_record, apply_entry,
}
use range_vec_kv.Durability.Entries.{apply_entries, assign_records, apply_entries-append}
use range_vec_kv.Durability.Files.{IsWorking, IsReadable, IsReadableDocument, write_wal-Holds}
use range_vec_kv.Durability.Invariant.{IsFiled, Durable}

module _ (pb : Protobuf) (laws : ProtobufLaws pb) where
  pub put_entry-IsReadable :
      (r : DocumentRecord) → IsStorable pb laws r → IsReadable pb (put_entry r)
  put_entry-IsReadable r s = record {
    decodes = decode-encode_put pb laws r s;
    fits = encode_wal_entry-FitsFrame pb laws (put_entry r) s.entry_fits;
  }

  pub storable_document : (r : DocumentRecord) → IsStorable pb laws r → IsReadableDocument pb r
  storable_document r s = record {
    decodes = decode_document_record-encode_document_record pb laws r s;
    fits = encode_document_record-FitsFrame pb laws r s;
  }

  -- The entry of a deletion can be represented.
  abbrev pub IsDeletable : Bytes → Bytes → Type 0
  IsDeletable c k = laws.wal_entry_fits (wal_message (delete_entry c k)) ≡ true

  delete_entry-IsReadable : (c k : Bytes) → IsDeletable c k → IsReadable pb (delete_entry c k)
  delete_entry-IsReadable c k h = record {
    decodes = decode-encode_delete pb laws c k h;
    fits = encode_wal_entry-FitsFrame pb laws (delete_entry c k) h;
  }

  -- The state after new entries were applied and written.
  unfoldable pub after_entries : WalStore → List WalEntry → List WalEntry → WalStore
  after_entries s es new = record {
    records = apply_entries s.records new;
    disk = record s.disk {
      wal = some (magic_header ++ encode_frames (map (encode_wal_entry pb) (es ++ new)));
    };
  }

  after_entries-Durable :
      (s : WalStore) (d : Durable pb s) (new : List WalEntry)
      → All (IsReadable pb) new
      → All (IsFiled pb) (apply_entries s.records new)
      → Durable pb (after_entries s d.entries new)
  unfolding after_entries
  after_entries-Durable s d new readable filed = record {
    docs = d.docs;
    entries = d.entries ++ new;
    snapshot_holds = d.snapshot_holds;
    wal_holds = inr refl;
    docs_readable = d.docs_readable;
    entries_readable = All-append (IsReadable pb) d.entries new d.entries_readable readable;
    records_replayed =
        ap (λ m. apply_entries m new) d.records_replayed
        ∙ sym (apply_entries-append (assign_records [] d.docs) d.entries new);
    filed = filed;
  }

  store_record-after :
      (io : Io) (s : WalStore) (d : Durable pb s) (r : DocumentRecord)
      → IsWorking io
      → store_record pb io s r ≡ (ok_status, after_entries s d.entries (put_entry r ∷ []))
  unfolding store_record append_wal after_entries apply_entries apply_entry
  store_record-after io s d r w =
      rw (write_wal-Holds pb io s.disk _ d.entries (put_entry r ∷ []) w d.wal_holds)

  -- A call that succeeded and left a durable store.
  abbrev pub Done : Status × WalStore → Type 0
  Done x = (x.0 ≡ ok_status) × Durable pb x.1

  pub entry_Done :
      (s : WalStore) (d : Durable pb s) (new : List WalEntry) (x : Status × WalStore)
      → x ≡ (ok_status, after_entries s d.entries new)
      → All (IsReadable pb) new
      → All (IsFiled pb) (apply_entries s.records new)
      → Done x
  entry_Done s d new x e readable filed =
      subst Done (sym e) (refl, after_entries-Durable s d new readable filed)

  pub store_record-Durable :
      (io : Io) (s : WalStore) (r : DocumentRecord)
      → IsWorking io
      → IsStorable pb laws r
      → Durable pb s
      → Done (store_record pb io s r)
  unfolding apply_entries apply_entry
  store_record-Durable io s r w st d =
      entry_Done s d (put_entry r ∷ []) _ (store_record-after io s d r w)
        (put_entry-IsReadable r st, tt)
        (All-insert_or_assign (IsFiled pb) (key_of r) r s.records (refl, storable_document r st)
          d.filed)

  delete_record-after :
      (io : Io) (s : WalStore) (d : Durable pb s) (c k : Bytes)
      → IsWorking io
      → delete_record pb io s c k ≡ (ok_status, after_entries s d.entries (delete_entry c k ∷ []))
  unfolding delete_record append_delete after_entries apply_entries apply_entry
  delete_record-after io s d c k w =
      rw (write_wal-Holds pb io s.disk _ d.entries (delete_entry c k ∷ []) w d.wal_holds)

  pub delete_record-Durable :
      (io : Io) (s : WalStore) (c k : Bytes)
      → IsWorking io
      → IsDeletable c k
      → Durable pb s
      → Done (delete_record pb io s c k)
  unfolding apply_entries apply_entry
  delete_record-Durable io s c k w h d =
      entry_Done s d (delete_entry c k ∷ []) _ (delete_record-after io s d c k w)
        (delete_entry-IsReadable c k h, tt)
        (All-erase (IsFiled pb) (build_composite_key c k) s.records d.filed)

  -- A put that is refused, or repeats a mutation, leaves the store as it is.
  put_record_cases {ℓ} :
      (P : Status × WalStore → Type ℓ) (io : Io) (s : WalStore) (r : DocumentRecord)
      → ((st : Status) → P (st, s))
      → P (store_record pb io s r)
      → P (put_record pb io s r)
  unfolding put_record
  put_record_cases P io s r same stored = elim (Option-cases (find (key_of r) s.records)) [
    | inl e ↦ rw (e, put_record) stored
    | inr (x, e) ↦
        rw (e, put_record)
          (elim (Bool-cases (is_ok (validate_mutation x r))) [
            | inl v ↦ rw v (elim (Bool-cases (is_duplicate_mutation x r)) [
              | inl dup ↦ rw dup (same _)
              | inr new ↦ rw new stored
            ])
            | inr v ↦ rw v (same _)
          ])
  ]

  pub put_record-Durable :
      (io : Io) (s : WalStore) (r : DocumentRecord)
      → IsWorking io
      → IsStorable pb laws r
      → Durable pb s
      → Durable pb (put_record pb io s r).1
  put_record-Durable io s r w st d =
      put_record_cases (λ x. Durable pb x.1) io s r (λ status'. d)
        (store_record-Durable io s r w st d).1
