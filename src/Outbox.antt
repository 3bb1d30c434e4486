-- ===== src/Outbox.antt =====
-- src/gateway/vector_index_outbox.cpp: documents that wait for the vector index, kept in a file. The
-- embedding service and the vector index are an interface; Pending proves that the file is the
-- queue, Drain what a drain does.
pub mod Pending
pub mod Drain
use range_vec_kv.Base.{
  ℕ, suc, ◌%◌, ◌^◌, Bool, true, false, Option, none, some, List, [], ◌∷◌, ◌++◌, map, if◌then◌else◌,
  length,
}
use range_vec_kv.Base.Bytes.{Bytes, bytes}
use range_vec_kv.OrderedMap.{Map, find, insert_or_assign, erase, values, keys}
use range_vec_kv.Status.{Status, StatusOr, value, status, ok_status, internal, is_ok, to_string}
use range_vec_kv.Document.{DocumentRecord, build_composite_key, key_of}
use range_vec_kv.Document.Mutation.{is_empty}
use range_vec_kv.Codec.{
  Protobuf, magic_header, decode_frames, encode_document_record, decode_document_record,
}
use range_vec_kv.Codec.Frames.{encode_frames}
use range_vec_kv.WalStore.{Io, read_whole_file}

-- EmbeddingService and VectorIndex, which may change a state `World` with each call.
pub record Services (World Vector : Type 0) : Type 0 where
  pub embed_text : Bytes → World → StatusOr Vector × World
  pub embed_image : Bytes → World → StatusOr Vector × World
  pub upsert : DocumentRecord → Vector → World → Status × World

pub record OutboxStatus : Type 0 where
  pub enabled : Bool
  pub state : Bytes
  pub pending_count : ℕ
  pub succeeded : ℕ
  pub failed : ℕ
  pub last_error : Bytes

pub record Outbox : Type 0 where
  pub pending : Map DocumentRecord
  pub counters : OutboxStatus
  pub running : Bool
  pub stopping : Bool
  pub file : Option Bytes

-- What the constructor makes over a file.
abbrev pub open_outbox : Option Bytes → Outbox
open_outbox file = record {
  pending = [];
  counters = record {
    enabled = true;
    state = bytes "idle";
    pending_count = 0;
    succeeded = 0;
    failed = 0;
    last_error = [];
  };
  running = false;
  stopping = false;
  file = file;
}

-- The first of the metadata's image keys that has a value.
unfoldable pub first_reference : Map Bytes → List Bytes → Bytes
first_reference metadata [] = []
first_reference metadata (k ∷ ks) =
    let later = first_reference metadata ks in
    elim (find k metadata) [ none ↦ later | some v ↦ if is_empty v then later else v ]

unfoldable pub image_reference_for_record : DocumentRecord → Bytes
image_reference_for_record r =
    first_reference r.metadata
      (bytes "image_path" ∷ bytes "image_reference" ∷ bytes "image_uri" ∷ [])

unfoldable pub ensure_outbox_directory : Io → Status
ensure_outbox_directory io = elim io.parent_error [
  | none ↦ ok_status
  | some e ↦ internal (bytes "failed to create vector outbox directory: " ++ e)
]

-- Start() and the two halves of Stop(), between which the worker ends.
unfoldable pub start : Outbox → Outbox
start s = if s.running then s else record s { running = true; stopping = false }

unfoldable pub request_stop : Outbox → Outbox
request_stop s = if s.running then record s { stopping = true } else s

unfoldable pub finish_stop : Outbox → Outbox
finish_stop s =
    if s.running
    then record s { running = false; counters = record s.counters { state = bytes "stopped" } }
    else s

-- Status()
unfoldable pub current_status : Outbox → OutboxStatus
current_status s = record s.counters { pending_count = length s.pending }

-- RecordError(status), which DrainOnce also does by hand.
abbrev pub record_error : Outbox → Status → Outbox
record_error s st = record s {
  counters = record s.counters { state = bytes "degraded"; last_error = to_string st };
}

module _ {World Vector : Type 0} (sv : Services World Vector) where
  unfoldable pub embed : DocumentRecord → World → StatusOr Vector × World
  embed r w =
      let image = image_reference_for_record r in
      if is_empty image
      then sv.embed_text (r.title ++ bytes " " ++ r.body) w
      else sv.embed_image image w

  -- IndexRecord(record)
  unfoldable pub index_record : DocumentRecord → World → Status × World
  unfolding embed
  index_record r w =
      let (embedding, w') = embed r w in
      elim embedding [ status st ↦ (st, w') | value v ↦ sv.upsert r v w' ]

module _ (pb : Protobuf) where
  -- The loop of Recover over the frames.
  unfoldable pub recover_tasks : Map DocumentRecord → List Bytes → Status × Map DocumentRecord
  recover_tasks m [] = (ok_status, m)
  recover_tasks m (frame ∷ rest) = elim (decode_document_record pb frame) [
    | status st ↦ (st, m)
    | value r ↦ recover_tasks (insert_or_assign (key_of r) r m) rest
  ]

  -- The end of Recover: the number of tasks is noted only if all of them were read.
  abbrev pub with_tasks : Outbox → Status × Map DocumentRecord → Status × Outbox
  with_tasks s (st, m) =
      if is_ok st
      then (
        ok_status,
        record s { pending = m; counters = record s.counters { pending_count = length m } },
      )
      else (st, record s { pending = m })

  -- Recover()
  unfoldable pub recover_outbox : Io → Outbox → Status × Outbox
  recover_outbox io s = elim (read_whole_file io s.file) [
    | none ↦ (ok_status, record s { pending = [] })
    | some text ↦
        if is_empty text
        then (ok_status, record s { pending = [] })
        else elim (decode_frames text) [
          | status st ↦ (st, record s { pending = [] })
          | value frames ↦ with_tasks s (recover_tasks [] frames)
        ]
  ]

  -- RewriteLocked()
  unfoldable pub rewrite : Io → Outbox → Status × Outbox
  rewrite io s =
      if is_ok (ensure_outbox_directory io)
      then (if io.can_open
          then (
            ok_status,
            record s {
              file = some (
                  magic_header
                  ++ encode_frames (map (encode_document_record pb) (values s.pending)));
            },
          )
          else (internal (bytes "failed to open vector index outbox"), s))
      else (ensure_outbox_directory io, s)

  -- Enqueue(record)
  unfoldable pub enqueue : Io → Outbox → DocumentRecord → Status × Outbox
  enqueue io s r =
      let m = insert_or_assign (key_of r) r s.pending in
      let s' : Outbox = record s {
        pending = m;
        counters = record s.counters { pending_count = length m; state = bytes "pending" };
      } in
      let (st, s'') = rewrite io s' in
      if is_ok st then (ok_status, s'') else (st, record_error s'' st)

  -- Remove(collection, key)
  unfoldable pub remove : Io → Outbox → Bytes → Bytes → Status × Outbox
  remove io s collection key =
      let m = erase (build_composite_key collection key) s.pending in
      rewrite io
        (record s { pending = m; counters = record s.counters { pending_count = length m } })

  -- DrainOnce up to the end of its first locked block; the keys are those of `pending`.
  unfoldable pub begin_drain : Outbox → Outbox
  begin_drain s = record s {
    counters = record s.counters {
      state = if is_empty s.pending then bytes "idle" else bytes "indexing";
    };
  }

  -- The second locked block of DrainOnce for a key, after the index has answered with a status. A
  -- status in the result ends DrainOnce with it.
  unfoldable pub finish_task : Io → Outbox → Bytes → Status → Option Status × Outbox
  finish_task io s key st =
      if is_ok st
      then (let m = erase key s.pending in
          let s' : Outbox = record s {
            pending = m;
            counters = record s.counters {
              succeeded = suc s.counters.succeeded % 2 ^ 64;
              pending_count = length m;
              state = if is_empty m then bytes "idle" else bytes "pending";
            };
          } in
          let (written, s'') = rewrite io s' in
          if is_ok written then (none, s'') else (some written, record_error s'' written))
      else (
        none,
        record_error
            (record s { counters = record s.counters { failed = suc s.counters.failed % 2 ^ 64 } })
            st,
      )

  module _ {World Vector : Type 0} (sv : Services World Vector) where
    -- The loop of DrainOnce, no other call of the outbox coming in between. `io` says how the file
    -- system answers when a key is handled.
    unfoldable pub drain_loop :
        (Bytes → Io) → List Bytes → Outbox → World → Status × (Outbox × World)
    drain_loop io [] s w = (ok_status, (s, w))
    drain_loop io (key ∷ rest) s w = elim (find key s.pending) [
      | none ↦ drain_loop io rest s w
      | some r ↦
          let (st, w') = index_record sv r w in
          let (ended, s') = finish_task (io key) s key st in
          elim ended [ none ↦ drain_loop io rest s' w' | some e ↦ (e, (s', w')) ]
    ]

    -- DrainOnce()
    unfoldable pub drain_once : (Bytes → Io) → Outbox → World → Status × (Outbox × World)
    drain_once io s w = drain_loop io (keys s.pending) (begin_drain s) w
