-- ===== src/Durability/Run.antt =====
-- A store over its life: any sequence of operations and restarts.
use range_vec_kv.Base.{◌≡◌, refl, ap, sym, subst, inl, none, List, [], ◌∷◌, All}
use range_vec_kv.Base.Bytes.{Bytes}
use range_vec_kv.Status.{ok_status, Try, returned, raised}
use range_vec_kv.Document.{DocumentRecord}
use range_vec_kv.Codec.{Protobuf, ProtobufLaws}
use range_vec_kv.Codec.Records.{IsStorable}
use range_vec_kv.WalStore.{
  Io, Disk, WalStore, init, put_record, batch_put, delete_record, flush_snapshot, recover, Replayed,
}
use range_vec_kv.Durability.Entries.{apply_entries, assign_records}
use range_vec_kv.Durability.Files.{IsWorking}
use range_vec_kv.Durability.Invariant.{Durable, recover-Durable}
use range_vec_kv.Durability.Steps.{IsDeletable, put_record-Durable, delete_record-Durable}
use range_vec_kv.Durability.Snapshot.{flush_snapshot-Durable}
use range_vec_kv.Durability.Batches.{batch_put-Durable}

-- What a client or an operator does.
pub data Op : Type 0 where
  puts : DocumentRecord → Op
  batch_puts : List DocumentRecord → Op
  deletes : Bytes → Bytes → Op
  flushes restarts : Op

abbrev pub empty_disk : Disk
empty_disk = record { wal = none; snapshot = none }

-- A new process has the documents that Recover left.
abbrev pub reopened : WalStore → Try Replayed → WalStore
reopened s raised = init s.disk
reopened s (returned (st, m)) = record s { records = m }

module _ (pb : Protobuf) where
  pub step : WalStore → Io × Op → WalStore
  step s (io, puts r) = (put_record pb io s r).1
  step s (io, batch_puts rs) = (batch_put pb io s rs).1
  step s (io, deletes c k) = (delete_record pb io s c k).1
  step s (io, flushes) = (flush_snapshot pb io s).1
  step s (io, restarts) = reopened s (recover pb io s.disk)

  unfoldable pub run : WalStore → List (Io × Op) → WalStore
  unfolding step
  run s [] = s
  run s (op ∷ ops) = run (step s op) ops

module _ (pb : Protobuf) (laws : ProtobufLaws pb) where
  -- The documents of an operation can be represented.
  abbrev pub Fits : Op → Type 0
  Fits (puts r) = IsStorable pb laws r
  Fits (batch_puts rs) = All (IsStorable pb laws) rs
  Fits (deletes c k) = IsDeletable pb laws c k
  Fits _ = Unit

  abbrev pub IsFine : Io × Op → Type 0
  IsFine (io, op) = IsWorking io × Fits op

  init-Durable : Durable pb (init empty_disk)
  unfolding apply_entries assign_records
  init-Durable = record {
    docs = [];
    entries = [];
    snapshot_holds = inl (refl, refl);
    wal_holds = inl (refl, refl);
    docs_readable = tt;
    entries_readable = tt;
    records_replayed = refl;
    filed = tt;
  }

  -- A restart of a durable store gives the same store.
  reopened_same :
      (io : Io) (s : WalStore) → IsWorking io → Durable pb s → reopened s (recover pb io s.disk) ≡ s
  reopened_same io s w d = ap (reopened s) (recover-Durable pb io s w d)

  step-Durable :
      (s : WalStore) (op : Io × Op) → IsFine op → Durable pb s → Durable pb (step pb s op)
  unfolding step
  step-Durable s (io, puts r) (w, h) d = put_record-Durable pb laws io s r w h d
  step-Durable s (io, batch_puts rs) (w, h) d = batch_put-Durable pb laws io s rs w h d
  step-Durable s (io, deletes c k) (w, h) d = (delete_record-Durable pb laws io s c k w h d).1
  step-Durable s (io, flushes) (w, h) d = (flush_snapshot-Durable pb io s w d).1
  step-Durable s (io, restarts) (w, h) d = subst (Durable pb) (sym (reopened_same io s w d)) d

  pub run-Durable :
      (s : WalStore) (ops : List (Io × Op))
      → All IsFine ops
      → Durable pb s
      → Durable pb (run pb s ops)
  unfolding run
  run-Durable s [] h d = d
  run-Durable s (op ∷ ops) h d = run-Durable (step pb s op) ops h.1 (step-Durable s op h.0 d)

  -- From an empty disk, after any puts, batches, deletions, flushes and restarts whose documents
  -- protobuf can represent and whose file accesses succeed, Recover on the files returns ok and
  -- exactly the documents that are in memory.
  pub recover-run :
      (io : Io) (ops : List (Io × Op))
      → IsWorking io
      → All IsFine ops
      → recover pb io (run pb (init empty_disk) ops).disk
        ≡ returned (ok_status, (run pb (init empty_disk) ops).records)
  recover-run io ops w h =
      recover-Durable pb io (run pb (init empty_disk) ops) w
        (run-Durable (init empty_disk) ops h init-Durable)
