-- ===== src/Serving/Batch.antt =====
-- PutKvRecords of src/gateway/server.cpp: one bad record and the whole batch is refused.
use range_vec_kv.Base.{
  suc, ◌≡◌, ◌≤◌, refl, ap, ltb, true, false, Option, none, some, List, [], ◌∷◌, map, length, All,
  arith, Bool-cases, ◌⊎◌, inl, inr,
}
use range_vec_kv.Base.Bytes.{Bytes, bytes, bytes_eq, eq→bytes_eq}
use range_vec_kv.Status.{Status, StatusOr, value, status, is_ok}
use range_vec_kv.Document.{DocumentRecord}
use range_vec_kv.Document.Mutation.{is_empty}
use range_vec_kv.WalStore.{contains}
use range_vec_kv.Gateway.{
  Backend, Gateway, Surroundings, in_collection, describe_route, check_batch, keep_checked,
  batch_key, put_checked_batch, prepare_all, store_batch, put_kv_records,
}
use range_vec_kv.Serving.Verdicts.{
  IsServed, Verdict, never, refuses, serves, owner_refusal-Verdict, write_refusal-cases,
}

-- Two records with different collections or keys.
abbrev pub IsApart : DocumentRecord → DocumentRecord → Type 0
IsApart r s = (r.collection ≡ s.collection) × (r.key ≡ s.key) → ⊥

abbrev pub AreApart : List DocumentRecord → Type 0
AreApart [] = Unit
AreApart (r ∷ rs) = All (IsApart r) rs × AreApart rs

batch_key-IsApart :
    (r s : DocumentRecord) → bytes_eq (batch_key r) (batch_key s) ≡ false → IsApart r s
batch_key-IsApart r s e (p, q) =
    absurd (ground (arith, e, eq→bytes_eq (batch_key r) (batch_key s) same))
  where
    same : batch_key r ≡ batch_key s
    same = cc

-- Not among the keys seen so far.
abbrev IsNew : List Bytes → DocumentRecord → Type 0
IsNew seen r = contains seen (batch_key r) ≡ false

contains_cons :
    (k j : Bytes) (seen : List Bytes)
    → contains (k ∷ seen) j ≡ false
    → (bytes_eq k j ≡ false) × (contains seen j ≡ false)
unfolding contains
contains_cons k j seen h = ground (arith, h)

module _ {Store World Vector : Type 0} (be : Backend Store World Vector) (env : Surroundings)
    (trace_id : Bytes) (g : Gateway Store World) where
  -- A record with a key of which the router names this node as the owner or no node.
  abbrev pub IsAccepted : DocumentRecord → Type 0
  IsAccepted r = (is_empty r.key ≡ false) × IsServed be env.fuel g r.collection r.key

  -- Some record has a key at which Route does not return.
  abbrev pub Stuck : List DocumentRecord → Type 0
  Stuck [] = ⊥
  Stuck (r ∷ rs) = (describe_route be env.fuel g r.collection r.key ≡ none) ⊎ Stuck rs

  data Checked (seen : List Bytes) (rs : List DocumentRecord)
      : Option (StatusOr (List DocumentRecord)) → Type 0 where
    stuck : Stuck rs → Checked seen rs none
    rejected : (st : Status) → is_ok st ≡ false → Checked seen rs (some (status st))
    accepted :
        All IsAccepted rs → AreApart rs → All (IsNew seen) rs → Checked seen rs (some (value rs))

  split-IsNew :
      (r : DocumentRecord) (seen : List Bytes) (rs : List DocumentRecord)
      → All (IsNew (batch_key r ∷ seen)) rs
      → All (IsApart r) rs × All (IsNew seen) rs
  split-IsNew r seen [] h = (tt, tt)
  split-IsNew r seen (s ∷ rs) h =
      let both = contains_cons (batch_key r) (batch_key s) seen h.0 in
      let rest = split-IsNew r seen rs h.1 in
      ((batch_key-IsApart r s both.0, rest.0), (both.1, rest.1))

  keep :
      (r : DocumentRecord) (seen : List Bytes) (rs : List DocumentRecord)
      {v : Option (Option Status)} {rest : Option (StatusOr (List DocumentRecord))}
      → is_empty r.key ≡ false
      → contains seen (batch_key r) ≡ false
      → Verdict be env.fuel g r.collection r.key v
      → Checked (batch_key r ∷ seen) rs rest
      → Checked seen (r ∷ rs) (keep_checked r v rest)
  unfolding keep_checked
  keep r seen rs e q (never n) c = stuck (inl n)
  keep r seen rs e q (refuses st f) c = rejected st f
  keep r seen rs e q (serves k served) (stuck h) = stuck (inr h)
  keep r seen rs e q (serves k served) (rejected st f) = rejected st f
  keep r seen rs e q (serves k served) (accepted all apart new) =
      let (away, older) = split-IsNew r seen rs new in
      accepted ((e, served), all) (away, apart) (q, older)

  check_batch-Checked :
      (seen : List Bytes) (rs : List DocumentRecord)
      → Checked seen (map (in_collection g.config) rs) (check_batch be env trace_id g seen rs)
  unfolding check_batch
  check_batch-Checked seen [] = accepted tt tt tt
  check_batch-Checked seen (r ∷ rs) = elim (Bool-cases (is_empty r.key)) [
    | inl e ↦ rw e (rejected _ refl)
    | inr e ↦ rw e (elim (Bool-cases (contains seen (batch_key (in_collection g.config r)))) [
      | inl q ↦ rw q (rejected _ refl)
      | inr q ↦ rw q (
          keep (in_collection g.config r) seen (map (in_collection g.config) rs) e q
            (owner_refusal-Verdict be env (bytes "kv") (bytes "kv record") trace_id g _ r.key)
            (check_batch-Checked (batch_key (in_collection g.config r) ∷ seen) rs))
    ])
  ]

  -- What PutKvRecords does with a batch: `stored` is what it does if it accepts the batch.
  pub data BatchOutcome (rs : List DocumentRecord) (stored : Status × Gateway Store World)
      : Option (Status × Gateway Store World) → Type 0 where
    endless : Stuck rs → BatchOutcome rs stored none
    refused : (st : Status) → is_ok st ≡ false → BatchOutcome rs stored (some (st, g))
    done :
        g.started ≡ true
        → g.config.read_only_mode ≡ false
        → length rs ≤ g.config.kv_batch_max_records
        → All IsAccepted rs
        → AreApart rs
        → BatchOutcome rs stored (some stored)

  -- BatchPut of a batch whose records PrepareMutation has completed.
  abbrev pub stored_batch : List DocumentRecord → Status × Gateway Store World
  stored_batch rs =
      let (rs', count) = prepare_all g.config.node_id env.batch_ms g.mutation_count rs in
      store_batch be rs' (record g { mutation_count = count })

  by_check :
      (rs : List DocumentRecord) {x : Option (StatusOr (List DocumentRecord))}
      → g.started ≡ true
      → g.config.read_only_mode ≡ false
      → length rs ≤ g.config.kv_batch_max_records
      → Checked [] rs x
      → BatchOutcome rs (stored_batch rs) (put_checked_batch be env g x)
  unfolding put_checked_batch
  by_check rs on writable l (stuck h) = endless h
  by_check rs on writable l (rejected st f) = refused st f
  by_check rs on writable l (accepted all apart new) = done on writable l all apart

  length-map : {A B : Type 0} (f : A → B) (xs : List A) → length (map f xs) ≡ length xs
  length-map f [] = refl
  length-map f (x ∷ xs) = ap suc (length-map f xs)

  -- PutKvRecords either refuses the batch with a status that is not ok and changes nothing, or it
  -- hands the whole batch to BatchPut, after PrepareMutation. Then the gateway is started and takes
  -- writes, the batch is not larger than allowed, every record has a key that is not empty and that
  -- the router gives to this node or to none, and no two records have the same collection and key.
  -- It does not return only where Route does not for a record.
  pub put_kv_records-BatchOutcome :
      (rs : List DocumentRecord)
      → BatchOutcome
          (map (in_collection g.config) rs)
          (stored_batch (map (in_collection g.config) rs))
          (put_kv_records be env rs trace_id g)
  unfolding put_kv_records
  put_kv_records-BatchOutcome rs = elim (write_refusal-cases be g) [
    | inl (st, e, f) ↦ rw (e, put_kv_records) (refused st f)
    | inr (e, on, writable) ↦
        rw (e, put_kv_records)
          (elim (Bool-cases (is_empty rs)) [
            | inl q ↦ rw q (refused _ refl)
            | inr q ↦ rw q (elim (Bool-cases (ltb g.config.kv_batch_max_records (length rs))) [
              | inl m ↦ rw m (refused _ refl)
              | inr m ↦ rw m (
                  by_check (map (in_collection g.config) rs) on writable
                    (ground (arith, m, length-map (in_collection g.config) rs))
                    (check_batch-Checked [] rs))
            ])
          ])
  ]
