-- ===== src/WalStore/Replay.antt =====
-- Recover, ReplaySnapshotLocked and ReplayWalLocked of WriteAheadKvStore.
use range_vec_kv.Base.{not, Option, none, some, List, [], ◌∷◌, if◌then◌else◌, ◌==◌}
use range_vec_kv.Base.Bytes.{Bytes}
use range_vec_kv.OrderedMap.{Map, insert_or_assign, erase}
use range_vec_kv.Status.{Status, value, status, ok_status, is_ok, Try, returned, raised}
use range_vec_kv.Document.{DocumentRecord, build_composite_key, key_of}
use range_vec_kv.Codec.{
  Protobuf, WalEntry, put, delete, decode_frames, decode_document_record, decode_wal_entry,
}
use range_vec_kv.WalStore.State.{Io, Disk, has_persistence_magic}
use range_vec_kv.Legacy.{lines, deserialize_record, split_escaped, unescape}

unfoldable pub read_whole_file : Io → Option Bytes → Option Bytes
read_whole_file io none = none
read_whole_file io (some text) = if io.can_read then some text else none

abbrev assign_record : Map DocumentRecord → DocumentRecord → Map DocumentRecord
assign_record m r = insert_or_assign (key_of r) r m

-- What a replay leaves: a status, and the documents read so far.
abbrev pub Replayed : Type 0
Replayed = Status × Map DocumentRecord

unfoldable pub apply_entry : Map DocumentRecord → WalEntry → Map DocumentRecord
apply_entry m e = elim e.operation [
  | put ↦ insert_or_assign (key_of e.document) e.document m
  | delete ↦ erase (build_composite_key e.collection e.key) m
]

-- The loop over the lines of a legacy snapshot.
unfoldable pub replay_snapshot_lines : Map DocumentRecord → List Bytes → Try Replayed
replay_snapshot_lines m [] = returned (ok_status, m)
replay_snapshot_lines m (line ∷ rest) = elim (deserialize_record line) [
  | raised ↦ raised
  | returned (status st) ↦ returned (st, m)
  | returned (value r) ↦ replay_snapshot_lines (assign_record m r) rest
]

-- The body of the loop over the lines of a legacy log; a line that is no entry is passed over.
unfoldable pub replay_wal_line : Map DocumentRecord → Bytes → Try Replayed
replay_wal_line m (operation ∷ bar ∷ rest) =
    if not (bar == b'|')
    then returned (ok_status, m)
    else (if operation == b'P'
        then elim (deserialize_record rest) [
          | raised ↦ raised
          | returned (status st) ↦ returned (st, m)
          | returned (value r) ↦ returned (ok_status, assign_record m r)
        ]
        else (if operation == b'D'
            then elim (split_escaped rest b'|') [
              | c ∷ k ∷ others ↦
                  returned (ok_status, erase (build_composite_key (unescape c) (unescape k)) m)
              | _ ↦ returned (ok_status, m)
            ]
            else returned (ok_status, m)))
replay_wal_line m line = returned (ok_status, m)

unfoldable pub replay_wal_lines : Map DocumentRecord → List Bytes → Try Replayed
unfolding replay_wal_line
replay_wal_lines m [] = returned (ok_status, m)
replay_wal_lines m (line ∷ rest) = elim (replay_wal_line m line) [
  | raised ↦ raised
  | returned (st, m') ↦ if is_ok st then replay_wal_lines m' rest else returned (st, m')
]

module _ (pb : Protobuf) where
  -- The loop over the frames of a snapshot.
  unfoldable pub replay_documents : Map DocumentRecord → List Bytes → Replayed
  replay_documents m [] = (ok_status, m)
  replay_documents m (frame ∷ rest) = elim (decode_document_record pb frame) [
    | status st ↦ (st, m)
    | value r ↦ replay_documents (assign_record m r) rest
  ]

  -- The loop over the frames of a log.
  unfoldable pub replay_entries : Map DocumentRecord → List Bytes → Replayed
  unfolding apply_entry
  replay_entries m [] = (ok_status, m)
  replay_entries m (frame ∷ rest) = elim (decode_wal_entry pb frame) [
    | status st ↦ (st, m)
    | value e ↦ replay_entries (apply_entry m e) rest
  ]

  unfoldable pub replay_snapshot : Io → Option Bytes → Map DocumentRecord → Try Replayed
  replay_snapshot io file m = elim (read_whole_file io file) [
    | none ↦ returned (ok_status, m)
    | some text ↦
        if has_persistence_magic text
        then elim (decode_frames text) [
          | status st ↦ returned (st, m)
          | value frames ↦ returned (replay_documents m frames)
        ]
        else replay_snapshot_lines m (lines text)
  ]

  unfoldable pub replay_wal : Io → Option Bytes → Map DocumentRecord → Try Replayed
  replay_wal io file m = elim (read_whole_file io file) [
    | none ↦ returned (ok_status, m)
    | some text ↦
        if has_persistence_magic text
        then elim (decode_frames text) [
          | status st ↦ returned (st, m)
          | value frames ↦ returned (replay_entries m frames)
        ]
        else replay_wal_lines m (lines text)
  ]

  -- Recover(): the snapshot, and then the log over it.
  unfoldable pub recover : Io → Disk → Try Replayed
  recover io disk = elim (replay_snapshot io disk.snapshot []) [
    | raised ↦ raised
    | returned (st, m) ↦ if is_ok st then replay_wal io disk.wal m else returned (st, m)
  ]
