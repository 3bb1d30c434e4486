-- ===== src/Gateway/Lifecycle.antt =====
-- SeedDemoData and Stop of the gateway.
use range_vec_kv.Base.{Bool, false, not, ◌||◌, none, some, List, [], ◌∷◌, if◌then◌else◌}
use range_vec_kv.Base.Bytes.{bytes}
use range_vec_kv.Status.{Status, StatusOr, value, status, ok_status, is_ok, unavailable}
use range_vec_kv.Document.{DocumentRecord}
use range_vec_kv.Document.Mutation.{is_empty}
use range_vec_kv.Outbox.{enqueue, drain_once, request_stop, finish_stop}
use range_vec_kv.Gateway.State.{Backend, Gateway, Surroundings}
use range_vec_kv.Gateway.Writes.{demo_records, prepare_all, store_batch}

unfoldable pub is_found : StatusOr (List DocumentRecord) → Bool
is_found (status st) = false
is_found (value rs) = not (is_empty rs)

module _ {Store World Vector : Type 0} (be : Backend Store World Vector) where
  -- The loop of SeedDemoData that enqueues the records.
  unfoldable pub enqueue_all :
      Surroundings → List DocumentRecord → Gateway Store World → Status × Gateway Store World
  enqueue_all env [] g = (ok_status, g)
  enqueue_all env (r ∷ rs) g = elim g.vector_outbox [
    | none ↦ (unavailable (bytes "vector index outbox is not initialized"), g)
    | some o ↦
        let (st, o') = enqueue be.protobuf env.io o r in
        let g' : Gateway Store World = record g { vector_outbox = some o' } in
        let rest = enqueue_all env rs g' in if is_ok st then rest else (st, g')
  ]

  -- vector_outbox_->DrainOnce(), if there is an outbox.
  unfoldable pub drain_outbox : Surroundings → Gateway Store World → Status × Gateway Store World
  drain_outbox env g = elim g.vector_outbox [
    | none ↦ (ok_status, g)
    | some o ↦
        let (st, (o', w)) = drain_once be.protobuf be.services env.drain_io o g.world in
        (st, record g { vector_outbox = some o'; world = w })
  ]

  -- kv_store_->FlushSnapshot() and vector_index_->FlushSnapshot()
  unfoldable pub flush_store : Gateway Store World → Status × Gateway Store World
  flush_store g = let (st, kv) = be.kv_store.flush_snapshot g.kv in (st, record g { kv = kv })

  unfoldable pub flush_vectors : Gateway Store World → Status × Gateway Store World
  flush_vectors g = let (st, w) = be.flush_index g.world in (st, record g { world = w })

  -- A step that is taken only if the one before returned ok.
  unfoldable pub then_do :
      Status × Gateway Store World
      → (Gateway Store World → Status × Gateway Store World)
      → Status × Gateway Store World
  then_do (st, g) next = if is_ok st then next g else (st, g)

  -- The end of SeedDemoData, which drops the statuses of the two snapshots.
  unfoldable pub flush_both : Gateway Store World → Status × Gateway Store World
  flush_both g =
      let (st, g') = flush_store g in let (st', g'') = flush_vectors g' in (ok_status, g'')

  -- SeedDemoData()
  unfoldable pub seed_demo_data : Surroundings → Gateway Store World → Status × Gateway Store World
  seed_demo_data env g =
      let c = g.config.default_collection in
      let (rs, count) =
        prepare_all g.config.node_id env.batch_ms g.mutation_count (demo_records c) in
      if not g.config.enable_demo_data || g.config.read_only_mode
      then (ok_status, g)
      else if is_found (be.kv_store.range c [] [] 1 g.kv)
      then (ok_status, g)
      else then_do (store_batch be rs (record g { mutation_count = count }))
          (λ g'. then_do (enqueue_all env rs g') (λ g''. then_do (drain_outbox env g'') flush_both))

  -- The outbox is drained and its worker stopped.
  unfoldable pub stop_outbox : Surroundings → Gateway Store World → Gateway Store World
  stop_outbox env g =
      let (st, g') = drain_outbox env g in
      elim g'.vector_outbox [
        | none ↦ g'
        | some o ↦ record g' { vector_outbox = some (finish_stop (request_stop o)) }
      ]

  -- Stop(), apart from discovery and migration.
  unfoldable pub stop_gateway : Surroundings → Gateway Store World → Status × Gateway Store World
  stop_gateway env g =
      if g.started
      then then_do (flush_store (stop_outbox env g)) (λ g'.
        then_do (flush_vectors g')
          (λ g''. (ok_status, record g'' { vector_outbox = none; started = false })))
      else (ok_status, g)
