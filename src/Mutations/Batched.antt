-- ===== src/Mutations/Batched.antt =====
-- BatchPut is all or nothing, and as a whole does what its records do one by one.
use range_vec_kv.Base.{
  ◌≡◌, refl, ap, sym, ◌∙◌, true, false, Option-cases, Bool-cases, inl, inr, List, [], ◌∷◌, map,
  ◌++◌, none, some, Option, arith,
}
use range_vec_kv.OrderedMap.{find, values, insert_or_assign}
use range_vec_kv.Status.{Status, StatusOr, value, status, is_ok}
use range_vec_kv.Document.{DocumentRecord, key_of}
use range_vec_kv.Document.Mutation.{validate_mutation, is_duplicate_mutation, is_empty}
use range_vec_kv.Codec.{Protobuf, WalEntry, put_entry}
use range_vec_kv.WalStore.{
  Io, Disk, WalStore, put_record, store_record, batch_put, batch_loop, batch_step, stage_record,
  contains, Batch, commit_batch, append_wal_batch, write_wal,
}
use range_vec_kv.Mutations.Puts.{put_all, records-store_record}

-- What holds of a batch, if the loop went on; a status that ends it is not ok.
abbrev Ensures : (Batch → Type 0) → StatusOr Batch → Type 0
Ensures P (value b) = P b
Ensures P (status st) = is_ok st ≡ false

module _ (pb : Protobuf) (io : Io) where
  write_wal_failed :
      (disk : Disk) (current : List DocumentRecord) (entries : List WalEntry)
      → is_ok (write_wal pb io disk current entries).0 ≡ false
      → (write_wal pb io disk current entries).1 ≡ disk
  unfolding write_wal
  write_wal_failed disk current entries h = ground arith

  commit_batch_failed :
      (s : WalStore) (b : Batch)
      → is_ok (commit_batch pb io s b).0 ≡ false
      → (commit_batch pb io s b).1 ≡ s
  unfolding commit_batch append_wal_batch
  commit_batch_failed s b h =
      ground (arith, write_wal_failed s.disk (values b.staged) (map put_entry b.to_apply))

  -- A batch that is refused or cannot be logged leaves documents and files as they were.
  pub batch_put_failed :
      (s : WalStore) (rs : List DocumentRecord)
      → is_ok (batch_put pb io s rs).0 ≡ false
      → (batch_put pb io s rs).1 ≡ s
  unfolding batch_put
  batch_put_failed s rs h = by_loop (batch_loop _ rs) h
    where
      by_loop :
          (x : StatusOr Batch)
          → is_ok
              (elim x as (λ y. Status × WalStore) [
                | status e ↦ (e, s)
                | value b ↦ commit_batch pb io s b
              ]).0
            ≡ false
          → (elim x as (λ y. Status × WalStore) [
            | status e ↦ (e, s)
            | value b ↦ commit_batch pb io s b
          ]).1
            ≡ s
      by_loop (status e) k = refl
      by_loop (value b) k = commit_batch_failed s b k

  -- A staged record is a record that Put stores in a store with the staged documents.
  stage_record-put_record :
      (t : WalStore) (b : Batch) (r : DocumentRecord)
      → t.records ≡ b.staged
      → Ensures (λ c. (put_record pb io t r).1.records ≡ c.staged) (stage_record b r)
  unfolding put_record stage_record
  stage_record-put_record t b r e = elim (Option-cases (find (key_of r) b.staged)) [
    | inl q ↦ rw (q, stage_record) (rw (seen none q, put_record) stored)
    | inr (x, q) ↦
        rw (q, stage_record)
          (rw (seen (some x) q, put_record)
            (elim (Bool-cases (is_ok (validate_mutation x r))) [
              | inl v ↦ rw v (elim (Bool-cases (is_duplicate_mutation x r)) [
                | inl dup ↦ rw dup e
                | inr new ↦ rw new stored
              ])
              | inr v ↦ rw v v
            ]))
  ]
    where
      seen :
          (o : Option DocumentRecord) → find (key_of r) b.staged ≡ o → find (key_of r) t.records ≡ o
      seen o q = ap (find (key_of r)) e ∙ q

      stored : (store_record pb io t r).1.records ≡ insert_or_assign (key_of r) r b.staged
      stored = records-store_record pb io t r ∙ ap (insert_or_assign (key_of r) r) e

  batch_step-put_record :
      (t : WalStore) (b : Batch) (r : DocumentRecord)
      → t.records ≡ b.staged
      → Ensures (λ c. (put_record pb io t r).1.records ≡ c.staged) (batch_step b r)
  unfolding batch_step
  batch_step-put_record t b r e = elim (Bool-cases (contains b.batch_keys (key_of r))) [
    | inl q ↦ rw q refl
    | inr q ↦
        rw q (stage_record-put_record t (record b { batch_keys = key_of r ∷ b.batch_keys }) r e)
  ]

  -- Each round of the loop is one Put on documents that agree.
  batch_loop-put_all :
      (t : WalStore) (b : Batch) (rs : List DocumentRecord)
      → t.records ≡ b.staged
      → Ensures (λ c. (put_all pb io t rs).records ≡ c.staged) (batch_loop b rs)
  unfolding batch_loop put_all
  batch_loop-put_all t b [] e = e
  batch_loop-put_all t b (r ∷ rs) e =
      by_step (batch_step b r) (batch_step-put_record t b r e)
        (λ c k. batch_loop-put_all (put_record pb io t r).1 c rs k)
    where
      by_step :
          (x : StatusOr Batch)
          → Ensures (λ c. (put_record pb io t r).1.records ≡ c.staged) x
          → ((c : Batch)
              → (put_record pb io t r).1.records ≡ c.staged
              → Ensures
                  (λ d. (put_all pb io (put_record pb io t r).1 rs).records ≡ d.staged)
                  (batch_loop c rs))
          → Ensures
              (λ c. (put_all pb io (put_record pb io t r).1 rs).records ≡ c.staged)
              (elim x [ value c ↦ batch_loop c rs | status st ↦ status st ])
      by_step (value c) k rest = rest c k
      by_step (status st) k rest = k

  -- Nothing to apply means nothing staged.
  Untouched : WalStore → Batch → Type 0
  Untouched s b = is_empty b.to_apply ≡ true → b.staged ≡ s.records

  stage_record-Untouched :
      (s : WalStore) (b : Batch) (r : DocumentRecord)
      → Untouched s b
      → Ensures (Untouched s) (stage_record b r)
  unfolding stage_record Untouched
  stage_record-Untouched s b r h = elim (Option-cases (find (key_of r) b.staged)) [
    | inl q ↦ rw (q, stage_record) (λ k. absurd (never b.to_apply k))
    | inr (x, q) ↦
        rw (q, stage_record)
          (elim (Bool-cases (is_ok (validate_mutation x r))) [
            | inl v ↦ rw v (elim (Bool-cases (is_duplicate_mutation x r)) [
              | inl dup ↦ rw dup h
              | inr new ↦ rw new (λ k. absurd (never b.to_apply k))
            ])
            | inr v ↦ rw v v
          ])
  ]
    where
      never : (rs : List DocumentRecord) → is_empty (rs ++ r ∷ []) ≡ true → ⊥
      never [] k = cc
      never (x ∷ rs) k = cc

  batch_step-Untouched :
      (s : WalStore) (b : Batch) (r : DocumentRecord)
      → Untouched s b
      → Ensures (Untouched s) (batch_step b r)
  unfolding batch_step Untouched
  batch_step-Untouched s b r h = elim (Bool-cases (contains b.batch_keys (key_of r))) [
    | inl q ↦ rw q refl
    | inr q ↦
        rw q (stage_record-Untouched s (record b { batch_keys = key_of r ∷ b.batch_keys }) r h)
  ]

  batch_loop-Untouched :
      (s : WalStore) (b : Batch) (rs : List DocumentRecord)
      → Untouched s b
      → Ensures (Untouched s) (batch_loop b rs)
  unfolding batch_loop
  batch_loop-Untouched s b [] h = h
  batch_loop-Untouched s b (r ∷ rs) h =
      by_step (batch_step b r) (batch_step-Untouched s b r h) (λ c k. batch_loop-Untouched s c rs k)
    where
      by_step :
          (x : StatusOr Batch)
          → Ensures (Untouched s) x
          → ((c : Batch) → Untouched s c → Ensures (Untouched s) (batch_loop c rs))
          → Ensures (Untouched s) (elim x [ value c ↦ batch_loop c rs | status st ↦ status st ])
      by_step (value c) k rest = rest c k
      by_step (status st) k rest = k

  commit_batch-records :
      (s : WalStore) (b : Batch)
      → Untouched s b
      → is_ok (commit_batch pb io s b).0 ≡ true
      → (commit_batch pb io s b).1.records ≡ b.staged
  unfolding commit_batch Untouched
  commit_batch-records s b h ok = ground (arith, h)

  -- A BatchPut that answers ok leaves the documents that Puts of its records leave, one by one in
  -- their order.
  pub batch_put-put_all :
      (s : WalStore) (rs : List DocumentRecord)
      → is_ok (batch_put pb io s rs).0 ≡ true
      → (batch_put pb io s rs).1.records ≡ (put_all pb io s rs).records
  unfolding batch_put Untouched
  batch_put-put_all s rs ok =
      by_loop (batch_loop start rs) (batch_loop-put_all s start rs refl)
        (batch_loop-Untouched s start rs (λ k. refl)) ok
    where
      start : Batch
      start = record { batch_keys = []; staged = s.records; to_apply = [] }

      by_loop :
          (x : StatusOr Batch)
          → Ensures (λ c. (put_all pb io s rs).records ≡ c.staged) x
          → Ensures (Untouched s) x
          → is_ok
              (elim x as (λ y. Status × WalStore) [
                | status e ↦ (e, s)
                | value b ↦ commit_batch pb io s b
              ]).0
            ≡ true
          → (elim x as (λ y. Status × WalStore) [
            | status e ↦ (e, s)
            | value b ↦ commit_batch pb io s b
          ]).1.records
            ≡ (put_all pb io s rs).records
      by_loop (value b) same u k = commit_batch-records s b u k ∙ sym same
      by_loop (status e) same u k = absurd (cc)
