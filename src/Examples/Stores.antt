-- ===== src/Examples/Stores.antt =====
-- Stores, documents and operations at which the theorems about the log are applied.
use range_vec_kv.Base.{◌≡◌, refl, true, none, some, List, [], ◌∷◌, ◌++◌, All, take, map, arith}
use range_vec_kv.Base.Bytes.{Bytes, bytes, bytes_eq, bytes_lt}
use range_vec_kv.OrderedMap.{insert_or_assign}
use range_vec_kv.Base.Int.{ℤ}
use range_vec_kv.Status.{StatusOr, ok_status, returned, value, status, internal}
use range_vec_kv.Document.{DocumentRecord}
use range_vec_kv.Document.Keys.{build_composite_key-injective}
use range_vec_kv.Legacy.{split_escaped, unescape}
use range_vec_kv.Legacy.Escape.{write_fields, unescape-split_escaped}
use range_vec_kv.Codec.{
  decode_loop, to_proto, wal_message, decode_frames, encode_frame, magic_header,
}
use range_vec_kv.Codec.Frames.{
  encode_frames, decode_frames-encode_frames, decode_loop_total, FitsFrame,
}
use range_vec_kv.Codec.Truncated.{torn_message, decode_frames_torn}
use range_vec_kv.Codec.Records.{IsStorable}
use range_vec_kv.WalStore.{Io, init, recover}
use range_vec_kv.Durability.Files.{IsWorking}
use range_vec_kv.Durability.Run.{
  Op, puts, batch_puts, deletes, flushes, restarts, empty_disk, run, IsFine, recover-run,
}
use range_vec_kv.Examples.Format.{format, format_laws, serialize_document, serialize_wal_entry}

abbrev pub working_io : Io
working_io = record { parent_error = none; can_open = true; can_read = true }

pub working_io-IsWorking : IsWorking working_io
working_io-IsWorking = record { parent = refl; opens = refl; reads = refl }

abbrev pub apple : DocumentRecord
apple = record {
  collection = bytes "docs";
  key = bytes "a";
  title = bytes "Apple";
  body = bytes "red";
  metadata = (bytes "lang", bytes "cpp") ∷ (bytes "size", bytes "1") ∷ [];
  version = 3;
  updated_at_unix_ms = ℤ.pos 1000;
  mutation_id = bytes "n1:1";
}

abbrev pub banana : DocumentRecord
banana = record apple { key = bytes "b"; title = bytes "Banana"; mutation_id = bytes "n1:2" }

pub apple-IsStorable : IsStorable format format_laws apple
unfolding to_proto wal_message serialize_document serialize_wal_entry insert_or_assign bytes_eq
    bytes_lt
apple-IsStorable = record {
  sorted = ((refl, tt), (tt, tt));
  document_fits = refl;
  entry_fits = refl;
}

pub banana-IsStorable : IsStorable format format_laws banana
unfolding to_proto wal_message serialize_document serialize_wal_entry insert_or_assign bytes_eq
    bytes_lt
banana-IsStorable = record {
  sorted = ((refl, tt), (tt, tt));
  document_fits = refl;
  entry_fits = refl;
}

abbrev life : List (Io × Op)
life =
    (working_io, puts apple)
    ∷ (working_io, flushes)
    ∷ (working_io, batch_puts (banana ∷ apple ∷ []))
    ∷ (working_io, restarts)
    ∷ (working_io, deletes (bytes "docs") (bytes "a"))
    ∷ []

life-IsFine : All (IsFine format format_laws) life
unfolding wal_message serialize_wal_entry
life-IsFine = (
  (w, apple-IsStorable),
  ((w, tt), ((w, (banana-IsStorable, (apple-IsStorable, tt))), ((w, tt), ((w, refl), tt)))),
)
  where
    w : IsWorking working_io
    w = working_io-IsWorking

recover-run_example :
    recover format working_io (run format (init empty_disk) life).disk
    ≡ returned (ok_status, (run format (init empty_disk) life).records)
recover-run_example =
    recover-run format format_laws working_io life working_io-IsWorking life-IsFine

two_payloads : All FitsFrame (bytes "first" ∷ bytes "second" ∷ [])
two_payloads = (omega arith, (omega arith, tt))

decode_frames-encode_frames_example :
    decode_frames (magic_header ++ encode_frames (bytes "first" ∷ bytes "second" ∷ []))
    ≡ value (bytes "first" ∷ bytes "second" ∷ [])
decode_frames-encode_frames_example =
    decode_frames-encode_frames (bytes "first" ∷ bytes "second" ∷ []) two_payloads

decode_frames_torn_example :
    decode_frames (
      magic_header
      ++ (encode_frames (bytes "first" ∷ []) ++ take 7 (encode_frame (bytes "second"))))
    ≡ status (internal (torn_message 7))
unfolding encode_frame
decode_frames_torn_example =
    decode_frames_torn (bytes "first" ∷ []) (bytes "second") 7 (omega arith, tt) (omega arith)
      (omega arith) (omega arith)

decode_loop_total_example : (r : StatusOr (List Bytes)) × (decode_loop 3 (bytes "abc") [] ≡ some r)
decode_loop_total_example = decode_loop_total 3 (bytes "abc") [] (omega arith)

build_composite_key-injective_example : (bytes "docs" ≡ bytes "docs") × (bytes "a" ≡ bytes "a")
build_composite_key-injective_example =
    build_composite_key-injective (bytes "docs") (bytes "docs") (bytes "a") (bytes "a")
      (omega arith) (omega arith) refl

unescape-split_escaped_example :
    map unescape
      (split_escaped (write_fields b'|' (bytes "docs") (bytes "x|y" ∷ bytes "\\" ∷ [])) b'|')
    ≡ bytes "docs" ∷ bytes "x|y" ∷ bytes "\\" ∷ []
unescape-split_escaped_example =
    unescape-split_escaped b'|' (bytes "docs") (bytes "x|y" ∷ bytes "\\" ∷ []) (refl, refl)

split_parts : split_escaped (bytes "docs|x\\|y|") b'|' ≡ bytes "docs" ∷ bytes "x\\|y" ∷ [] ∷ []
unfolding split_escaped
split_parts = refl
