-- ===== src/Examples/Gateways.antt =====
-- A gateway at which the theorems about calls of clients are applied.
use range_vec_kv.Base.{
  ℕ, ◌+◌, ◌≡◌, refl, true, false, none, some, List, [], ◌∷◌, ◌++◌, map, length, arith,
}
use range_vec_kv.Base.Int.{ℤ}
use range_vec_kv.Base.Bytes.{Bytes, bytes, bytes_eq, bytes_lt}
use range_vec_kv.OrderedMap.{find, insert_or_assign}
use range_vec_kv.Status.{ok_status, value}
use range_vec_kv.Document.{DocumentRecord, build_composite_key}
use range_vec_kv.Scan.Select.{select, last_key, in_range}
use range_vec_kv.Outbox.{Services, open_outbox}
use range_vec_kv.Routing.{
  new_router, rebuild, route, select_loop, slot_for, first_point, decide, add_nodes, add_replicas,
  ring_emplace, ring_from, wrap, node_at, member, replica_point, to_decimal, low_digits, increment,
}
use range_vec_kv.WalStore.{
  WalStore, put_record, store_record, append_wal, write_wal, ensure_parent_directory,
}
use range_vec_kv.Gateway.{
  Backend, Gateway, Surroundings, or_default, in_collection, put_kv_record, get_kv_record,
  put_kv_records, reindex_documents, flush_after, index_all, write_guard, write_refusal,
  behind_guard, owner_refusal, describe_route, remote_refusal, stamp, store_put, prepare_mutation,
  stamp_mutation, stamp_version, stamp_time,
}
use range_vec_kv.Serving.Laws.{wal_kv, wal_laws}
use range_vec_kv.Serving.Verdicts.{
  WriteOutcome, perform, effect, deletes_document, perform-WriteOutcome,
}
use range_vec_kv.Serving.ReadBack.{Found, put_call, stamped, get_kv_record-perform}
use range_vec_kv.Serving.Batch.{BatchOutcome, stored_batch, put_kv_records-BatchOutcome}
use range_vec_kv.Serving.Paging.{reindex_documents-index_all}
use range_vec_kv.Examples.Format.{format}
use range_vec_kv.Examples.Stores.{apple, banana, working_io}
use range_vec_kv.Examples.Scans.{three, three-IsPlaced, three-IsSorted}
use range_vec_kv.Examples.Routes.{spread, east}

-- An index that keeps the keys that it took.
abbrev noting : Services (List Bytes) ℕ
noting = record {
  embed_text = λ t w. (value (length t), w);
  embed_image = λ t w. (value (length t), w);
  upsert = λ r v w. (ok_status, w ++ r.key ∷ []);
}

abbrev local_backend : Backend WalStore (List Bytes) ℕ
local_backend = record {
  kv_store = wal_kv format working_io;
  services = noting;
  remove_vector = λ c k w. (ok_status, w);
  flush_index = λ w. (ok_status, w);
  protobuf = format;
  hash = spread;
}

abbrev front : Gateway WalStore (List Bytes)
front = record {
  config = record {
    node_id = bytes "n1";
    default_collection = bytes "docs";
    read_only_mode = false;
    replication_factor = 1;
    kv_batch_max_records = 2;
    enable_demo_data = false;
  };
  started = true;
  kv = three;
  world = [];
  vector_outbox = some (open_outbox none);
  router = rebuild spread (new_router (bytes "n1") 1 4) (east ∷ []);
  mutation_count = 0;
}

abbrev noon : Surroundings
noon = record {
  now_ms = ℤ.pos 12;
  batch_ms = λ n. ℤ.pos (12 + n);
  generated_trace = bytes "t";
  io = working_io;
  drain_io = λ k. working_io;
  fuel = 4;
}

abbrev cherry : DocumentRecord
cherry = record apple { collection = []; key = bytes "c"; version = 0; mutation_id = [] }

perform-WriteOutcome_example :
    WriteOutcome local_backend 4 front
      (bytes "docs")
      (bytes "a")
      (effect local_backend noon (deletes_document [] (bytes "a")) front)
      (perform local_backend noon [] (deletes_document [] (bytes "a")) front)
unfolding or_default
perform-WriteOutcome_example =
    perform-WriteOutcome local_backend noon [] (deletes_document [] (bytes "a")) front

put_kv_records-BatchOutcome_example :
    BatchOutcome local_backend noon [] front
      (map (in_collection front.config) (cherry ∷ banana ∷ []))
      (stored_batch local_backend noon [] front
        (map (in_collection front.config) (cherry ∷ banana ∷ [])))
      (put_kv_records local_backend noon (cherry ∷ banana ∷ []) [] front)
put_kv_records-BatchOutcome_example =
    put_kv_records-BatchOutcome local_backend noon [] front (cherry ∷ banana ∷ [])

reindex_documents-index_all_example :
    reindex_documents local_backend 5 (bytes "docs") front
    ≡ some (
        flush_after local_backend front (
          index_all local_backend
            (select (or_default front.config (bytes "docs")) [] (last_key []) three.records)
            []))
unfolding or_default select in_range bytes_eq bytes_lt
reindex_documents-index_all_example =
    reindex_documents-index_all local_backend (wal_laws format working_io) 5 (bytes "docs") front
      (three-IsPlaced, three-IsSorted) (omega arith) refl (omega arith)

get_kv_record-perform_example : Found local_backend (stamped local_backend noon cherry front) (
    get_kv_record local_backend noon []
      (bytes "c")
      []
      (effect local_backend noon (put_call local_backend false cherry) front).1)
unfolding put_kv_record write_guard behind_guard write_refusal owner_refusal describe_route
    remote_refusal route select_loop slot_for first_point ring_from wrap decide node_at rebuild
    add_nodes add_replicas ring_emplace replica_point to_decimal low_digits increment member
    or_default stamp prepare_mutation stamp_mutation stamp_version stamp_time store_put put_record
    store_record append_wal write_wal ensure_parent_directory find insert_or_assign bytes_eq
    bytes_lt build_composite_key
get_kv_record-perform_example =
    get_kv_record-perform local_backend (wal_laws format working_io) noon [] [] cherry front false
      ok_status (effect local_backend noon (put_call local_backend false cherry) front).1 refl refl
