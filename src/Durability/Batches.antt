-- ===== src/Durability/Batches.antt =====
-- BatchPut keeps all documents in the files, and on a failure it changes nothing.
use range_vec_kv.Base.{
  ◌≡◌, refl, ap, sym, ◌∙◌, false, Option-cases, Bool-cases, inl, inr, List, [], ◌∷◌, ◌++◌, map, All,
  All-append, some,
}
use range_vec_kv.OrderedMap.{Map, find, insert_or_assign}
use range_vec_kv.OrderedMap.Laws.{All-insert_or_assign}
use range_vec_kv.Status.{Status, StatusOr, value, status, ok_status, is_ok}
use range_vec_kv.Document.{DocumentRecord, key_of}
use range_vec_kv.Document.Mutation.{validate_mutation, is_duplicate_mutation, is_empty}
use range_vec_kv.Codec.{Protobuf, ProtobufLaws, put_entry, magic_header, encode_wal_entry}
use range_vec_kv.Codec.Frames.{encode_frames}
use range_vec_kv.Codec.Records.{IsStorable}
use range_vec_kv.WalStore.{
  Io, WalStore, append_wal_batch, Batch, commit_batch, batch_put, batch_loop, batch_step,
  stage_record, stage, contains,
}
use range_vec_kv.Durability.Entries.{assign_records, apply_entries-map_put, assign_records-append}
use range_vec_kv.Durability.Files.{IsWorking, IsReadable, write_wal-Holds}
use range_vec_kv.Durability.Invariant.{IsFiled, Durable}
use range_vec_kv.Durability.Steps.{
  after_entries, entry_Done, put_entry-IsReadable, storable_document,
}

-- What holds of the value, if there is one.
abbrev Ensures {ℓ} : {A : Type ℓ} → (A → Type 0) → StatusOr A → Type 0
Ensures P (value a) = P a
Ensures P (status st) = Unit

Ensures-batch_loop_step :
    (P : Batch → Type 0) (x : StatusOr Batch) (f : Batch → StatusOr Batch)
    → Ensures P x
    → ((c : Batch) → P c → Ensures P (f c))
    → Ensures P (elim x [ value c ↦ f c | status st ↦ status st ])
Ensures-batch_loop_step P (value c) f h k = k c h
Ensures-batch_loop_step P (status st) f h k = tt

module _ (pb : Protobuf) (laws : ProtobufLaws pb) where
  abbrev AllStorable : List DocumentRecord → Type 0
  AllStorable = All (IsStorable pb laws)

  -- The loop's variables: what is staged is what is to be applied, over the store's documents.
  record Staged (m : Map DocumentRecord) (b : Batch) : Type 0 where
    pub assigned : b.staged ≡ assign_records m b.to_apply
    pub storable : AllStorable b.to_apply

  stage-Staged :
      (m : Map DocumentRecord) (b : Batch) (r : DocumentRecord)
      → IsStorable pb laws r
      → Staged m b
      → Staged m (stage b r)
  unfolding assign_records
  stage-Staged m b r st h = record {
    assigned =
        ap (insert_or_assign (key_of r) r) h.assigned
        ∙ sym (assign_records-append m b.to_apply (r ∷ []));
    storable = All-append (IsStorable pb laws) b.to_apply (r ∷ []) h.storable (st, tt);
  }

  stage_record-Staged :
      (m : Map DocumentRecord) (b : Batch) (r : DocumentRecord)
      → IsStorable pb laws r
      → Staged m b
      → Ensures (Staged m) (stage_record b r)
  unfolding stage_record
  stage_record-Staged m b r st h = elim (Option-cases (find (key_of r) b.staged)) [
    | inl e ↦ rw (e, stage_record) (stage-Staged m b r st h)
    | inr (x, e) ↦
        rw (e, stage_record)
          (elim (Bool-cases (is_ok (validate_mutation x r))) [
            | inl v ↦ rw v (elim (Bool-cases (is_duplicate_mutation x r)) [
              | inl dup ↦ rw dup h
              | inr new ↦ rw new (stage-Staged m b r st h)
            ])
            | inr v ↦ rw v tt
          ])
  ]

  batch_step-Staged :
      (m : Map DocumentRecord) (b : Batch) (r : DocumentRecord)
      → IsStorable pb laws r
      → Staged m b
      → Ensures (Staged m) (batch_step b r)
  unfolding batch_step
  batch_step-Staged m b r st h = elim (Bool-cases (contains b.batch_keys (key_of r))) [
    | inl e ↦ rw e tt
    | inr e ↦ rw e (
        stage_record-Staged m (record b { batch_keys = key_of r ∷ b.batch_keys }) r st
          (record { assigned = h.assigned; storable = h.storable }))
  ]

  batch_loop-Staged :
      (m : Map DocumentRecord) (b : Batch) (rs : List DocumentRecord)
      → AllStorable rs
      → Staged m b
      → Ensures (Staged m) (batch_loop b rs)
  unfolding batch_loop
  batch_loop-Staged m b [] st h = h
  batch_loop-Staged m b (r ∷ rs) st h =
      Ensures-batch_loop_step (Staged m) (batch_step b r) (λ c. batch_loop c rs)
        (batch_step-Staged m b r st.0 h) (λ c k. batch_loop-Staged m c rs st.1 k)

  All-IsReadable :
      (rs : List DocumentRecord) → AllStorable rs → All (IsReadable pb) (map put_entry rs)
  All-IsReadable [] h = tt
  All-IsReadable (r ∷ rs) h = (put_entry-IsReadable pb laws r h.0, All-IsReadable rs h.1)

  assign_records-IsFiled :
      (m : Map DocumentRecord) (rs : List DocumentRecord)
      → AllStorable rs
      → All (IsFiled pb) m
      → All (IsFiled pb) (assign_records m rs)
  unfolding assign_records
  assign_records-IsFiled m [] st h = h
  assign_records-IsFiled m (r ∷ rs) st h =
      assign_records-IsFiled (insert_or_assign (key_of r) r m) rs st.1 (
        All-insert_or_assign (IsFiled pb) (key_of r) r m (refl, storable_document pb laws r st.0) h)

  commit_batch-after :
      (io : Io) (s : WalStore) (d : Durable pb s) (b : Batch)
      → IsWorking io
      → Staged s.records b
      → is_empty b.to_apply ≡ false
      → commit_batch pb io s b
        ≡ (ok_status, after_entries pb laws s d.entries (map put_entry b.to_apply))
  unfolding commit_batch append_wal_batch after_entries
  commit_batch-after io s d b w h n =
      rw
        (
          n,
          commit_batch,
          write_wal-Holds pb io s.disk _ d.entries (map put_entry b.to_apply) w d.wal_holds,
        )
        (ap
          (λ m. (
            ok_status,
            record {
              records = m;
              disk = record s.disk {
                wal = some (
                    magic_header
                    ++ encode_frames
                        (map (encode_wal_entry pb) (d.entries ++ map put_entry b.to_apply)));
              };
            },
          ))
          (h.assigned ∙ sym (apply_entries-map_put s.records b.to_apply)))

  commit_batch-Durable :
      (io : Io) (s : WalStore) (b : Batch)
      → IsWorking io
      → Staged s.records b
      → Durable pb s
      → Durable pb (commit_batch pb io s b).1
  unfolding commit_batch
  commit_batch-Durable io s b w h d = elim (Bool-cases (is_empty b.to_apply)) [
    | inl e ↦ rw (e, commit_batch) d
    | inr e ↦
        (entry_Done pb laws s d (map put_entry b.to_apply) _ (commit_batch-after io s d b w h e)
          (All-IsReadable b.to_apply h.storable)
          (rw (apply_entries-map_put s.records b.to_apply)
            (assign_records-IsFiled s.records b.to_apply h.storable d.filed))).1
  ]

  pub batch_put-Durable :
      (io : Io) (s : WalStore) (rs : List DocumentRecord)
      → IsWorking io
      → AllStorable rs
      → Durable pb s
      → Durable pb (batch_put pb io s rs).1
  unfolding batch_put assign_records
  batch_put-Durable io s rs w st d =
      by_loop (batch_loop start rs)
        (batch_loop-Staged s.records start rs st (record { assigned = refl; storable = tt }))
    where
      start : Batch
      start = record { batch_keys = []; staged = s.records; to_apply = [] }

      by_loop :
          (x : StatusOr Batch)
          → Ensures (Staged s.records) x
          → Durable pb
              (elim x as (λ y. Status × WalStore) [
                | status e ↦ (e, s)
                | value b ↦ commit_batch pb io s b
              ]).1
      by_loop (value b) h = commit_batch-Durable io s b w h d
      by_loop (status e) h = d
