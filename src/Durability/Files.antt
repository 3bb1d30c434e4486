-- ===== src/Durability/Files.antt =====
-- What is in the two files of a store, and what reading and writing them does.
use range_vec_kv.Base.{
  ◌≡◌, refl, ap, sym, subst, ◌∙◌, true, false, Option, none, some, List, [], ◌∷◌, ◌++◌, map, inl,
  inr, ◌⊎◌, All, arith,
}
use range_vec_kv.Base.Bytes.{Bytes}
use range_vec_kv.Status.{value, ok_status, returned}
use range_vec_kv.OrderedMap.{Map, insert_or_assign}
use range_vec_kv.Document.{DocumentRecord, key_of}
use range_vec_kv.Codec.{
  Protobuf, WalEntry, magic_header, decode_frames, encode_document_record, decode_document_record,
  encode_wal_entry, decode_wal_entry,
}
use range_vec_kv.Codec.Frames.{
  FitsFrame, encode_frames, encode_frames-append, decode_frames-encode_frames, has_prefix-append,
}
use range_vec_kv.WalStore.{
  Io, Disk, apply_entry, should_rewrite_legacy_wal, is_missing_or_empty, ensure_parent_directory,
  write_wal, written, frames_of, replay_documents, replay_entries, replay_snapshot, replay_wal,
  read_whole_file, has_persistence_magic,
}
use range_vec_kv.Durability.Entries.{apply_entries, assign_records}
use range_vec_kv.Document.Mutation.{is_empty}
use mathlib.Core.List.{map-append}

-- The file system does what it is asked.
pub record IsWorking (io : Io) : Type 0 where
  pub parent : io.parent_error ≡ none
  pub opens : io.can_open ≡ true
  pub reads : io.can_read ≡ true

module _ (pb : Protobuf) where
  -- An entry that is read back as it was written.
  pub record IsReadable (e : WalEntry) : Type 0 where
    pub decodes : decode_wal_entry pb (encode_wal_entry pb e) ≡ value e
    pub fits : FitsFrame (encode_wal_entry pb e)

  pub record IsReadableDocument (r : DocumentRecord) : Type 0 where
    pub decodes : decode_document_record pb (encode_document_record pb r) ≡ value r
    pub fits : FitsFrame (encode_document_record pb r)

  -- A file that is absent, or holds the header and frames of exactly these payloads.
  abbrev pub Holds : Option Bytes → List Bytes → Type 0
  Holds file payloads =
      ((file ≡ none) × (payloads ≡ [])) ⊎ (file ≡ some (magic_header ++ encode_frames payloads))

  entries_fit :
      (es : List WalEntry) → All IsReadable es → All FitsFrame (map (encode_wal_entry pb) es)
  entries_fit [] h = tt
  entries_fit (e ∷ es) h = (h.0.fits, entries_fit es h.1)

  pub documents_fit :
      (rs : List DocumentRecord)
      → All IsReadableDocument rs
      → All FitsFrame (map (encode_document_record pb) rs)
  documents_fit [] h = tt
  documents_fit (r ∷ rs) h = (h.0.fits, documents_fit rs h.1)

  replay_entries-map :
      (m : Map DocumentRecord) (es : List WalEntry)
      → All IsReadable es
      → replay_entries pb m (map (encode_wal_entry pb) es) ≡ (ok_status, apply_entries m es)
  unfolding replay_entries apply_entries
  replay_entries-map m [] h = refl
  replay_entries-map m (e ∷ es) h =
      rw (h.0.decodes, replay_entries) (replay_entries-map (apply_entry m e) es h.1)

  replay_documents-map :
      (m : Map DocumentRecord) (rs : List DocumentRecord)
      → All IsReadableDocument rs
      → replay_documents pb m (map (encode_document_record pb) rs)
        ≡ (ok_status, assign_records m rs)
  unfolding replay_documents assign_records
  replay_documents-map m [] h = refl
  replay_documents-map m (r ∷ rs) h =
      rw (h.0.decodes, replay_documents)
        (replay_documents-map (insert_or_assign (key_of r) r m) rs h.1)

  has_magic : (body : Bytes) → has_persistence_magic (magic_header ++ body) ≡ true
  unfolding has_persistence_magic
  has_magic body = has_prefix-append magic_header body

  replay_snapshot_framed :
      (io : Io) (text : Bytes) (m : Map DocumentRecord) (frames : List Bytes)
      → io.can_read ≡ true
      → has_persistence_magic text ≡ true
      → decode_frames text ≡ value frames
      → replay_snapshot pb io (some text) m ≡ returned (replay_documents pb m frames)
  unfolding replay_snapshot read_whole_file
  replay_snapshot_framed io text m frames r h d = ground arith

  replay_wal_framed :
      (io : Io) (text : Bytes) (m : Map DocumentRecord) (frames : List Bytes)
      → io.can_read ≡ true
      → has_persistence_magic text ≡ true
      → decode_frames text ≡ value frames
      → replay_wal pb io (some text) m ≡ returned (replay_entries pb m frames)
  unfolding replay_wal read_whole_file
  replay_wal_framed io text m frames r h d = ground arith

  pub replay_snapshot-Holds :
      (io : Io) (file : Option Bytes) (m : Map DocumentRecord) (rs : List DocumentRecord)
      → IsWorking io
      → All IsReadableDocument rs
      → Holds file (map (encode_document_record pb) rs)
      → replay_snapshot pb io file m ≡ returned (ok_status, assign_records m rs)
  unfolding assign_records replay_snapshot read_whole_file
  replay_snapshot-Holds io file m [] w h (inl (absent, none_held)) =
      rw (absent, replay_snapshot, read_whole_file)
  replay_snapshot-Holds io file m (r ∷ rs) w h (inl (absent, none_held)) = cc
  replay_snapshot-Holds io file m rs w h (inr held) =
      rw
        (
          held,
          replay_snapshot_framed io _ m _ w.reads (has_magic _)
              (decode_frames-encode_frames _ (documents_fit rs h)),
        )
        (ap returned (replay_documents-map m rs h))

  pub replay_wal-Holds :
      (io : Io) (file : Option Bytes) (m : Map DocumentRecord) (es : List WalEntry)
      → IsWorking io
      → All IsReadable es
      → Holds file (map (encode_wal_entry pb) es)
      → replay_wal pb io file m ≡ returned (ok_status, apply_entries m es)
  unfolding apply_entries replay_wal read_whole_file
  replay_wal-Holds io file m [] w h (inl (absent, none_held)) =
      rw (absent, replay_wal, read_whole_file)
  replay_wal-Holds io file m (e ∷ es) w h (inl (absent, none_held)) = cc
  replay_wal-Holds io file m es w h (inr held) =
      subst (λ f. replay_wal pb io f m ≡ returned (ok_status, apply_entries m es)) (sym held)
        (replay_wal_framed io _ m _ w.reads (has_magic _)
            (decode_frames-encode_frames _ (entries_fit es h))
          ∙ ap returned (replay_entries-map m es h))

  write_wal_working :
      (io : Io) (disk : Disk) (current : List DocumentRecord) (new : List WalEntry)
      → IsWorking io
      → write_wal pb io disk current new
        ≡ (ok_status, record disk { wal = some (written pb io disk.wal current new) })
  unfolding write_wal ensure_parent_directory
  write_wal_working io disk current new w = ground arith

  written-none :
      (io : Io) (current : List DocumentRecord) (new : List WalEntry)
      → written pb io none current new ≡ magic_header ++ frames_of pb new
  unfolding written should_rewrite_legacy_wal is_missing_or_empty
  written-none io current new = refl

  written_framed :
      (io : Io) (text : Bytes) (current : List DocumentRecord) (new : List WalEntry)
      → is_empty text ≡ false
      → has_persistence_magic text ≡ true
      → written pb io (some text) current new ≡ text ++ frames_of pb new
  unfolding written should_rewrite_legacy_wal is_missing_or_empty
  written_framed io text current new n h = ground arith

  written-Holds :
      (io : Io) (wal : Option Bytes) (current : List DocumentRecord) (es new : List WalEntry)
      → Holds wal (map (encode_wal_entry pb) es)
      → written pb io wal current new
        ≡ magic_header ++ encode_frames (map (encode_wal_entry pb) (es ++ new))
  unfolding frames_of
  written-Holds io wal current [] new (inl (absent, none_held)) =
      rw absent (written-none io current new)
  written-Holds io wal current (e ∷ es) new (inl (absent, none_held)) = cc
  written-Holds io wal current es new (inr held) =
      subst
        (λ f.
          written pb io f current new
          ≡ magic_header ++ encode_frames (map (encode_wal_entry pb) (es ++ new)))
        (sym held)
        (written_framed io _ current new refl (has_magic _)
          ∙ ap (λ t. magic_header ++ t)
              (sym (
                ap encode_frames (map-append (encode_wal_entry pb) es new)
                ∙ encode_frames-append (map (encode_wal_entry pb) es)
                    (map (encode_wal_entry pb) new))))

  -- A write appends its entries to the log, whatever the log's state was.
  pub write_wal-Holds :
      (io : Io) (disk : Disk) (current : List DocumentRecord) (es new : List WalEntry)
      → IsWorking io
      → Holds disk.wal (map (encode_wal_entry pb) es)
      → write_wal pb io disk current new ≡ (
        ok_status,
        record disk {
          wal = some (magic_header ++ encode_frames (map (encode_wal_entry pb) (es ++ new)));
        },
      )
  write_wal-Holds io disk current es new w held =
      write_wal_working io disk current new w
      ∙ ap (λ t. (ok_status, record disk { wal = some t }))
          (written-Holds io disk.wal current es new held)
