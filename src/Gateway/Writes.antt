-- ===== src/Gateway/Writes.antt =====
-- The calls of the gateway that change something. `none` stands for a call that does not return
-- because Route does not.
use range_vec_kv.Base.{
  ℕ, suc, ltb, Bool, Option, none, some, List, [], ◌∷◌, ◌++◌, if◌then◌else◌, length,
}
use range_vec_kv.Base.Bytes.{Bytes, bytes}
use range_vec_kv.Base.Int.{ℤ}
use range_vec_kv.OrderedMap.{insert_or_assign}
use range_vec_kv.Status.{
  Status, StatusOr, value, status, ok_status, is_ok, unavailable, invalid_argument,
}
use range_vec_kv.Document.{DocumentRecord}
use range_vec_kv.Document.Mutation.{is_empty}
use range_vec_kv.WalStore.{contains}
use range_vec_kv.Outbox.{Outbox, enqueue, remove, drain_once}
use range_vec_kv.Gateway.State.{Backend, Gateway, Surroundings}
use range_vec_kv.Gateway.Guards.{
  prepare_mutation, in_collection, or_default, write_refusal, owner_refusal,
}

-- `record.collection + '\n' + record.key`
abbrev pub batch_key : DocumentRecord → Bytes
batch_key r = r.collection ++ b'\n' ∷ r.key

-- The records of SeedDemoData before they are stamped.
abbrev demo_record : Bytes → Bytes → Bytes → Bytes → Bytes → DocumentRecord
demo_record collection key title body domain = record {
  collection = collection;
  key = key;
  title = title;
  body = body;
  metadata = (bytes "domain", domain) ∷ (bytes "lang", bytes "cpp") ∷ [];
  version = 0;
  updated_at_unix_ms = ℤ.pos 0;
  mutation_id = [];
}

abbrev pub demo_records : Bytes → List DocumentRecord
demo_records c =
    demo_record c (bytes "doc-001") (bytes "Distributed KV Engine")
      (bytes
        "RocksDB inspired durable key value pipeline with write ahead log recovery and range scan support.")
      (bytes "storage")
    ∷ demo_record c (bytes "doc-002") (bytes "Semantic Retrieval Worker")
        (bytes
          "Vector search worker converts text into dense embeddings and runs top k retrieval with graceful degradation.")
        (bytes "search")
    ∷ demo_record c (bytes "doc-003") (bytes "Gateway Observability")
        (bytes
          "Gateway injects trace identifiers, enforces rate limits and exposes health status for production monitoring.")
        (bytes "gateway")
    ∷ []

-- PrepareMutation for each record of a batch; `clock` is the time that it reads for each in turn.
unfoldable pub prepare_all : Bytes → (ℕ → ℤ) → ℕ → List DocumentRecord → List DocumentRecord × ℕ
prepare_all node_id clock count [] = ([], count)
prepare_all node_id clock count (r ∷ rs) =
    let (r', count') = prepare_mutation node_id (clock 0) count r in
    let (rs', count'') = prepare_all node_id (λ n. clock (suc n)) count' rs in (r' ∷ rs', count'')

-- A record of a batch whose owner is checked, before the rest of the batch.
unfoldable pub keep_checked :
    DocumentRecord
    → Option (Option Status)
    → Option (StatusOr (List DocumentRecord))
    → Option (StatusOr (List DocumentRecord))
keep_checked r none rest = none
keep_checked r (some (some st)) rest = some (status st)
keep_checked r (some none) none = none
keep_checked r (some none) (some (status st)) = some (status st)
keep_checked r (some none) (some (value rs)) = some (value (r ∷ rs))

module _ {Store World Vector : Type 0} (be : Backend Store World Vector) where
  -- kv_store_->Put, kv_store_->BatchPut and kv_store_->Delete.
  unfoldable pub store_put : DocumentRecord → Gateway Store World → Status × Gateway Store World
  store_put r g = let (st, kv) = be.kv_store.put r g.kv in (st, record g { kv = kv })

  unfoldable pub store_batch :
      List DocumentRecord → Gateway Store World → Status × Gateway Store World
  store_batch rs g = let (st, kv) = be.kv_store.batch_put rs g.kv in (st, record g { kv = kv })

  unfoldable pub store_delete : Bytes → Bytes → Gateway Store World → Status × Gateway Store World
  store_delete c k g = let (st, kv) = be.kv_store.delete c k g.kv in (st, record g { kv = kv })

  -- PrepareMutation on a record of the gateway.
  unfoldable pub stamp :
      Surroundings → DocumentRecord → Gateway Store World → DocumentRecord × Gateway Store World
  stamp env r g =
      let (r', count) = prepare_mutation g.config.node_id env.now_ms g.mutation_count r in
      (r', record g { mutation_count = count })

  -- Enqueue and then DrainOnce, whose status is dropped.
  unfoldable pub hand_over :
      Surroundings
      → DocumentRecord
      → Gateway Store World
      → Option Outbox
      → Status × Gateway Store World
  hand_over env r g none = (unavailable (bytes "vector index outbox is not initialized"), g)
  hand_over env r g (some o) =
      let (st, o') = enqueue be.protobuf env.io o r in
      let (st', (o'', w)) = drain_once be.protobuf be.services env.drain_io o' g.world in
      if is_ok st
      then (ok_status, record g { vector_outbox = some o''; world = w })
      else (st, record g { vector_outbox = some o' })

  abbrev pub hand_to_outbox :
      Surroundings → DocumentRecord → Gateway Store World → Status × Gateway Store World
  hand_to_outbox env r g = hand_over env r g g.vector_outbox

  -- kv_store_->Put and then the outbox.
  unfoldable pub put_and_index :
      Surroundings → DocumentRecord → Gateway Store World → Status × Gateway Store World
  put_and_index env r g =
      let (st, g') = store_put r g in if is_ok st then hand_to_outbox env r g' else (st, g')

  -- A write whose guards have passed or not.
  unfoldable pub behind_guard :
      Gateway Store World
      → Option (Option Status)
      → Status × Gateway Store World
      → Option (Status × Gateway Store World)
  behind_guard g none go = none
  behind_guard g (some (some st)) go = some (st, g)
  behind_guard g (some none) go = some go

  -- The guards of a write of one record, in order.
  unfoldable pub write_guard :
      Surroundings
      → Bytes
      → Bytes
      → Bytes
      → Gateway Store World
      → Bytes
      → Bytes
      → Option (Option Status)
  write_guard env label subject trace_id g collection key =
      elim (write_refusal g.config g.started) [
        | some st ↦ some (some st)
        | none ↦ owner_refusal be env label subject trace_id g (or_default g.config collection) key
      ]

  -- UpsertDocument(record, trace_id)
  unfoldable pub upsert_document :
      Surroundings
      → DocumentRecord
      → Bytes
      → Gateway Store World
      → Option (Status × Gateway Store World)
  upsert_document env r trace_id g =
      let (r', g') = stamp env (in_collection g.config r) g in
      behind_guard g
        (write_guard env (bytes "document") (bytes "document") trace_id g r.collection r.key)
        (put_and_index env r' g')

  -- PutKvRecord(record, trace_id)
  unfoldable pub put_kv_record :
      Surroundings
      → DocumentRecord
      → Bytes
      → Gateway Store World
      → Option (Status × Gateway Store World)
  put_kv_record env r trace_id g =
      let (r', g') = stamp env (in_collection g.config r) g in
      behind_guard g
        (write_guard env (bytes "kv") (bytes "kv record") trace_id g r.collection r.key)
        (store_put r' g')

  -- The end of DeleteDocument: the store and then the index.
  unfoldable pub delete_indexed : Bytes → Bytes → Gateway Store World → Status × Gateway Store World
  delete_indexed collection key g =
      let (st, g') = store_delete collection key g in
      let (st', w) = be.remove_vector collection key g'.world in
      if is_ok st then (st', record g' { world = w }) else (st, g')

  -- DeleteDocument after its guards: first what waits for the index.
  unfoldable pub remove_and_delete :
      Surroundings → Bytes → Bytes → Gateway Store World → Status × Gateway Store World
  remove_and_delete env collection key g = elim g.vector_outbox [
    | none ↦ delete_indexed collection key g
    | some o ↦
        let (st, o') = remove be.protobuf env.io o collection key in
        let g' : Gateway Store World = record g { vector_outbox = some o' } in
        if is_ok st then delete_indexed collection key g' else (st, g')
  ]

  -- DeleteDocument(collection, key, trace_id)
  unfoldable pub delete_document :
      Surroundings
      → Bytes
      → Bytes
      → Bytes
      → Gateway Store World
      → Option (Status × Gateway Store World)
  delete_document env collection key trace_id g =
      behind_guard g
        (write_guard env (bytes "document") (bytes "document") trace_id g collection key)
        (remove_and_delete env (or_default g.config collection) key g)

  -- DeleteKvRecord(collection, key, trace_id)
  unfoldable pub delete_kv_record :
      Surroundings
      → Bytes
      → Bytes
      → Bytes
      → Gateway Store World
      → Option (Status × Gateway Store World)
  delete_kv_record env collection key trace_id g =
      behind_guard g (write_guard env (bytes "kv") (bytes "kv record") trace_id g collection key)
        (store_delete (or_default g.config collection) key g)

  -- The checking loop of PutKvRecords, after records with the keys `seen`: the status of the first
  -- refusal, or the records with their collections.
  unfoldable pub check_batch :
      Surroundings
      → Bytes
      → Gateway Store World
      → List Bytes
      → List DocumentRecord
      → Option (StatusOr (List DocumentRecord))
  check_batch env trace_id g seen [] = some (value [])
  check_batch env trace_id g seen (r ∷ rs) =
      let r' = in_collection g.config r in
      let rest = check_batch env trace_id g (batch_key r' ∷ seen) rs in
      if is_empty r.key
      then some (status (invalid_argument (bytes "kv key cannot be empty")))
      else if contains seen (batch_key r')
      then some (
          status (
            invalid_argument
              (bytes "kv batch contains duplicate key: " ++ r'.collection ++ bytes ":" ++ r'.key)))
      else keep_checked r'
          (owner_refusal be env (bytes "kv") (bytes "kv record") trace_id g r'.collection r.key)
          rest

  -- The two loops of PutKvRecords and BatchPut.
  unfoldable pub put_checked_batch :
      Surroundings
      → Gateway Store World
      → Option (StatusOr (List DocumentRecord))
      → Option (Status × Gateway Store World)
  put_checked_batch env g none = none
  put_checked_batch env g (some (status st)) = some (st, g)
  put_checked_batch env g (some (value rs)) =
      let (rs', count) = prepare_all g.config.node_id env.batch_ms g.mutation_count rs in
      some (store_batch rs' (record g { mutation_count = count }))

  -- PutKvRecords(records, trace_id)
  unfoldable pub put_kv_records :
      Surroundings
      → List DocumentRecord
      → Bytes
      → Gateway Store World
      → Option (Status × Gateway Store World)
  put_kv_records env rs trace_id g = elim (write_refusal g.config g.started) [
    | some st ↦ some (st, g)
    | none ↦
        if is_empty rs
        then some (invalid_argument (bytes "kv batch cannot be empty"), g)
        else if ltb g.config.kv_batch_max_records (length rs)
        then some (invalid_argument (bytes "kv batch exceeds gateway.kv_batch_max_records"), g)
        else put_checked_batch env g (check_batch env trace_id g [] rs)
  ]

  -- `record.metadata["trace_id"] = ...` where a trace id is given.
  unfoldable pub with_trace : Bytes → DocumentRecord → DocumentRecord
  with_trace trace_id r =
      if is_empty trace_id
      then r
      else record r { metadata = insert_or_assign (bytes "trace_id") trace_id r.metadata }

  -- ApplyMigratedRecord(record, semantic, trace_id), which asks for no owner.
  unfoldable pub apply_migrated_record :
      Surroundings
      → DocumentRecord
      → Bool
      → Bytes
      → Gateway Store World
      → Status × Gateway Store World
  apply_migrated_record env r semantic trace_id g =
      let (r', g') = stamp env (in_collection g.config r) g in
      let r'' = with_trace trace_id r' in
      elim (write_refusal g.config g.started) [
        | some st ↦ (st, g)
        | none ↦
            if is_empty r.key
            then (invalid_argument (bytes "migrated record key cannot be empty"), g)
            else (if semantic then put_and_index env r'' g' else store_put r'' g')
      ]
