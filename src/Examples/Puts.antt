-- ===== src/Examples/Puts.antt =====
-- Mutations at which the theorems about single stores are applied.
use range_vec_kv.Base.{◌≡◌, refl, inr, true, false, none, some, [], ◌∷◌, ◌++◌, map, arith}
use range_vec_kv.Base.Bytes.{bytes, bytes_eq, bytes_lt}
use range_vec_kv.OrderedMap.{Map, find, insert_or_assign, erase, values}
use range_vec_kv.Status.{ok_status, returned, value, is_ok}
use range_vec_kv.Document.{DocumentRecord, key_of, build_composite_key}
use range_vec_kv.Document.Mutation.{validate_mutation, is_duplicate_mutation}
use range_vec_kv.Codec.{magic_header, encode_document_record, has_prefix}
use range_vec_kv.Codec.Frames.{encode_frames}
use range_vec_kv.WalStore.{
  Io, WalStore, put_record, batch_put, delete_record, get, recover, should_rewrite_legacy_wal,
  has_persistence_magic, batch_loop, batch_step, stage_record, contains, commit_batch,
  append_wal_batch, write_wal, ensure_parent_directory,
}
use range_vec_kv.Durability.Entries.{assign_records}
use range_vec_kv.Durability.Files.{IsReadableDocument}
use range_vec_kv.Durability.Steps.{storable_document}
use range_vec_kv.Durability.Run.{empty_disk}
use range_vec_kv.Mutations.Puts.{put_all, put_all-version, NotOlder}
use range_vec_kv.Mutations.Batched.{batch_put_failed, batch_put-put_all}
use range_vec_kv.Mutations.Failures.{put_record_visible, delete_record_resurrects}
use range_vec_kv.Examples.Format.{format, format_laws}
use range_vec_kv.Examples.Stores.{apple, banana, working_io, working_io-IsWorking, apple-IsStorable}

-- A store that holds `apple`.
abbrev pub with_apple : WalStore
with_apple = record { records = (key_of apple, apple) ∷ []; disk = empty_disk }

abbrev newer_apple : DocumentRecord
newer_apple = record apple { version = 4; mutation_id = bytes "n1:9" }

abbrev stale_apple : DocumentRecord
stale_apple = record apple { version = 2; mutation_id = bytes "n1:0" }

abbrev broken_io : Io
broken_io = record { parent_error = none; can_open = false; can_read = true }

batch_put-put_all_example :
    (batch_put format working_io with_apple (banana ∷ newer_apple ∷ [])).1.records
    ≡ (put_all format working_io with_apple (banana ∷ newer_apple ∷ [])).records
unfolding batch_put batch_loop batch_step stage_record contains commit_batch append_wal_batch
    write_wal ensure_parent_directory validate_mutation is_duplicate_mutation find insert_or_assign
    bytes_eq bytes_lt build_composite_key
batch_put-put_all_example =
    batch_put-put_all format working_io with_apple (banana ∷ newer_apple ∷ []) refl

batch_put_failed_example :
    (batch_put format working_io with_apple (banana ∷ stale_apple ∷ [])).1 ≡ with_apple
unfolding batch_put batch_loop batch_step stage_record contains validate_mutation
    is_duplicate_mutation find insert_or_assign bytes_eq bytes_lt build_composite_key
batch_put_failed_example =
    batch_put_failed format working_io with_apple (banana ∷ stale_apple ∷ []) refl

put_all-version_example :
    (e : DocumentRecord) × (find
        (key_of apple)
        (put_all format broken_io with_apple (stale_apple ∷ newer_apple ∷ [])).records
      ≡ some e)
    × NotOlder format broken_io apple e
unfolding find bytes_eq build_composite_key
put_all-version_example =
    put_all-version format broken_io with_apple (stale_apple ∷ newer_apple ∷ []) apple
      (key_of apple) (omega arith) (omega arith) refl

put_record_visible_example :
    (is_ok (put_record format broken_io with_apple banana).0 ≡ false)
    × ((put_record format broken_io with_apple banana).1.disk ≡ empty_disk)
    × (get (put_record format broken_io with_apple banana).1 (bytes "docs") (bytes "b")
        ≡ value banana)
unfolding find bytes_eq build_composite_key ensure_parent_directory
put_record_visible_example = put_record_visible format broken_io with_apple banana refl refl

-- `apple` is in the snapshot, and the log is in the text format.
legacy_store : WalStore
legacy_store = record {
  records = (key_of apple, apple) ∷ [];
  disk = record {
    wal = some (bytes "D|docs|c\n");
    snapshot =
        some (magic_header ++ encode_frames (map (encode_document_record format) (apple ∷ [])));
  };
}

delete_record_resurrects_example :
    ((delete_record format working_io legacy_store (bytes "docs") (bytes "a")).0 ≡ ok_status)
    × (find
          (build_composite_key (bytes "docs") (bytes "a"))
          (delete_record format working_io legacy_store (bytes "docs") (bytes "a")).1.records
        ≡ none)
    × (m : Map DocumentRecord) × (recover format working_io
          (delete_record format working_io legacy_store (bytes "docs") (bytes "a")).1.disk
        ≡ returned (ok_status, m))
    × (find (build_composite_key (bytes "docs") (bytes "a")) m ≡ some apple)
unfolding legacy_store should_rewrite_legacy_wal has_persistence_magic has_prefix erase values
    assign_records find insert_or_assign bytes_eq bytes_lt build_composite_key
delete_record_resurrects_example =
    delete_record_resurrects format working_io legacy_store (apple ∷ []) (bytes "docs") (bytes "a")
      apple working_io-IsWorking refl (inr refl) (readable, tt) (tt, tt) ((refl, readable), tt) tt
      refl
  where
    readable : IsReadableDocument format apple
    readable = storable_document format format_laws apple apple-IsStorable
