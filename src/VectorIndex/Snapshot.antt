-- ===== src/VectorIndex/Snapshot.antt =====
-- FlushSnapshot and Recover of PersistentVectorIndex (src/search/vector_index.cpp): what was written is
-- found again.
use range_vec_kv.Base.{
  ◌≡◌, refl, ap, ◌∙◌, ◌<◌, ◌^◌, sym, subst, Bool, true, some, List, [], ◌∷◌, ◌++◌, map, length, All,
  if_true, arith, Bool-cases, inl, inr, Option,
}
use range_vec_kv.Base.Bytes.{Bytes}
use range_vec_kv.OrderedMap.{Map, insert_or_assign, values}
use range_vec_kv.OrderedMap.Laws.{All-insert_or_assign, All-erase}
use range_vec_kv.OrderedMap.Sorted.{IsSorted, insert_or_assign-IsSorted, erase-IsSorted}
use range_vec_kv.OrderedMap.Fold.{assign_all, assign_all_self}
use range_vec_kv.Status.{Status, value, ok_status, returned}
use range_vec_kv.Document.{DocumentRecord, key_of, build_composite_key}
use range_vec_kv.Document.Mutation.{is_empty}
use range_vec_kv.Codec.{to_proto, magic_header}
use range_vec_kv.Codec.Frames.{
  FitsFrame, encode_frames, decode_frames-encode_frames, has_prefix-append,
}
use range_vec_kv.Codec.Records.{from_proto-to_proto}
use range_vec_kv.WalStore.{Io, read_whole_file, has_persistence_magic}
use range_vec_kv.Durability.Files.{IsWorking}
use range_vec_kv.VectorIndex.{
  Library, VectorEntry, ProtoVectorEntry, EntryFormat, VectorIndex, new_index,
  ensure_index_directory, encode_vector_entry, decode_vector_entry, recover_entries, flush_index,
  upsert, remove_entry, recover_text, recover_index,
}

-- A call that changes the entries.
pub data IndexCall (Float : Type 0) : Type 0 where
  upserts : DocumentRecord → List Float → IndexCall Float
  removes : Bytes → Bytes → IndexCall Float

module _ {Float : Type 0} where
  abbrev pub message_of : VectorEntry Float → ProtoVectorEntry Float
  message_of e = record { document = to_proto e.document; vector = e.vector }

  unfoldable pub call : IndexCall Float → VectorIndex Float → VectorIndex Float
  call (upserts r v) s = (upsert r v s).1
  call (removes c k) s = (remove_entry c k s).1

  unfoldable pub call_all : List (IndexCall Float) → VectorIndex Float → VectorIndex Float
  call_all [] s = s
  call_all (x ∷ xs) s = call_all xs (call x s)

-- What the protobuf documentation says of a message within its limits, as in `ProtobufLaws`.
pub record EntryFormatLaws {Float : Type 0} (fmt : EntryFormat Float) : Type 0 where
  pub entry_fits : ProtoVectorEntry Float → Bool
  pub parse_entry-serialize_entry :
      (p : ProtoVectorEntry Float)
      → entry_fits p ≡ true
      → fmt.parse_entry (fmt.serialize_entry p) ≡ some p
  pub length-serialize_entry :
      (p : ProtoVectorEntry Float) → entry_fits p ≡ true → length (fmt.serialize_entry p) < 2 ^ 31

module _ {Float : Type 0} (fmt : EntryFormat Float) (laws : EntryFormatLaws fmt) where
  -- An entry that protobuf can represent.
  pub record IsStorableEntry (e : VectorEntry Float) : Type 0 where
    pub sorted : IsSorted e.document.metadata
    pub fits : laws.entry_fits (message_of e) ≡ true

  abbrev pub IsFiledEntry : Bytes × VectorEntry Float → Type 0
  IsFiledEntry (k, e) = (k ≡ key_of e.document) × IsStorableEntry e

  -- The entries that a call brings in can be represented.
  abbrev pub IsFineCall : IndexCall Float → Type 0
  IsFineCall (upserts r v) = IsStorableEntry (record { document = r; vector = v })
  IsFineCall (removes c k) = Unit

  pub record IsKept (s : VectorIndex Float) : Type 0 where
    pub ascending : IsSorted s.entries
    pub filed : All IsFiledEntry s.entries

  call-IsKept :
      (x : IndexCall Float) (s : VectorIndex Float) → IsFineCall x → IsKept s → IsKept (call x s)
  unfolding call upsert remove_entry
  call-IsKept (upserts r v) s f h = elim (Bool-cases (is_empty v)) [
    | inl e ↦ rw (e, call) h
    | inr e ↦
        rw (e, call)
          (record {
            ascending = insert_or_assign-IsSorted (key_of r) _ s.entries h.ascending;
            filed = All-insert_or_assign IsFiledEntry (key_of r) _ s.entries (refl, f) h.filed;
          })
  ]
  call-IsKept (removes c k) s f h = record {
    ascending = erase-IsSorted (build_composite_key c k) s.entries h.ascending;
    filed = All-erase IsFiledEntry (build_composite_key c k) s.entries h.filed;
  }

  call_all-IsKept :
      (xs : List (IndexCall Float)) (s : VectorIndex Float)
      → All IsFineCall xs
      → IsKept s
      → IsKept (call_all xs s)
  unfolding call_all
  call_all-IsKept [] s f h = h
  call_all-IsKept (x ∷ xs) s f h = call_all-IsKept xs (call x s) f.1 (call-IsKept x s f.0 h)

  decode-encode_vector_entry :
      (e : VectorEntry Float)
      → IsStorableEntry e
      → decode_vector_entry fmt (encode_vector_entry fmt e) ≡ value e
  unfolding decode_vector_entry encode_vector_entry
  decode-encode_vector_entry e s =
      rw (laws.parse_entry-serialize_entry (message_of e) s.fits, decode_vector_entry)
        (ap (λ d. value (record e { document = d })) (from_proto-to_proto e.document s.sorted))

  entries_fit :
      (m : Map (VectorEntry Float))
      → All IsFiledEntry m
      → All FitsFrame (map (encode_vector_entry fmt) (values m))
  unfolding encode_vector_entry values
  entries_fit [] h = tt
  entries_fit ((k, e) ∷ m) h =
      (omega (arith, laws.length-serialize_entry (message_of e) h.0.1.fits), entries_fit m h.1)

  recover_entries-map :
      (acc m : Map (VectorEntry Float))
      → All IsFiledEntry m
      → recover_entries fmt acc (map (encode_vector_entry fmt) (values m))
        ≡ (ok_status, assign_all acc m)
  unfolding recover_entries assign_all values
  recover_entries-map acc [] h = refl
  recover_entries-map acc ((k, e) ∷ m) h =
      rw (decode-encode_vector_entry e h.0.1, recover_entries)
        (rw (h.0.0) (recover_entries-map (insert_or_assign (key_of e.document) e acc) m h.1))

  abbrev flushed : VectorIndex Float → VectorIndex Float
  flushed s = record s {
    file = some (magic_header ++ encode_frames (map (encode_vector_entry fmt) (values s.entries)));
  }

  flush_index_working :
      (io : Io) (s : VectorIndex Float)
      → IsWorking io
      → flush_index fmt io s ≡ (ok_status, flushed s)
  unfolding flush_index ensure_index_directory
  flush_index_working io s w = ground arith

  recover_text-flushed :
      {Double : Type 0} (lib : Library Float Double) (s old : VectorIndex Float)
      → IsKept s
      → recover_text lib fmt
          (magic_header ++ encode_frames (map (encode_vector_entry fmt) (values s.entries)))
          old
        ≡ returned (ok_status, record old { entries = s.entries })
  unfolding recover_text has_persistence_magic
  recover_text-flushed lib s old h =
      if_true _ _ _ (has_prefix-append magic_header _)
      ∙ rw
          (
            decode_frames-encode_frames _ (entries_fit s.entries h.filed),
            recover_entries-map [] s.entries h.filed,
            assign_all_self s.entries h.ascending,
          )
          refl

  reads_text :
      {Double : Type 0} (lib : Library Float Double) (io : Io) (text : Bytes)
      → io.can_read ≡ true
      → recover_index lib fmt io (new_index (some text))
        ≡ recover_text lib fmt text (new_index (some text))
  unfolding recover_index read_whole_file
  reads_text lib io text r = rw r refl

  -- After any calls of Upsert and Remove on an empty index, FlushSnapshot answers ok and the Recover of
  -- a new index over the file answers ok with exactly the entries that were flushed. The files
  -- work, and the entries are ones that protobuf can represent, with `EntryFormatLaws`.
  pub recover_index-flush_index :
      {Double : Type 0} (lib : Library Float Double) (io later_io : Io)
      (calls : List (IndexCall Float)) (file : Option Bytes)
      → IsWorking io
      → IsWorking later_io
      → All IsFineCall calls
      → let s = call_all calls (new_index file) in
        let (st, t) = flush_index fmt io s in
        (st ≡ ok_status)
        × (t.entries ≡ s.entries)
        × (recover_index lib fmt later_io (new_index t.file) ≡ returned (ok_status, t))
  recover_index-flush_index lib io later_io calls file w later fine =
      subst
        (λ (x : Status × VectorIndex Float).
          (x.0 ≡ ok_status)
          × (x.1.entries ≡ s.entries)
          × (recover_index lib fmt later_io (new_index x.1.file) ≡ returned (ok_status, x.1)))
        (sym (flush_index_working io s w))
        (
          refl,
          refl,
          reads_text lib later_io _ later.reads
              ∙ recover_text-flushed lib s (new_index (flushed s).file) kept,
        )
    where
      s : VectorIndex Float
      s = call_all calls (new_index file)

      kept : IsKept s
      kept = call_all-IsKept calls (new_index file) fine (record { ascending = tt; filed = tt })
