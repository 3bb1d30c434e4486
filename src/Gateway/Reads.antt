-- ===== src/Gateway/Reads.antt =====
-- GetKvRecord, RangeKvRecords and ReindexDocuments of the gateway.
use range_vec_kv.Base.{
  ℕ, zero, suc, min, max, ltb, Option, none, some, List, [], ◌∷◌, ◌++◌, if◌then◌else◌, length,
}
use range_vec_kv.Base.Bytes.{Bytes, bytes}
use range_vec_kv.Status.{Status, StatusOr, value, status, ok_status, is_ok, unavailable}
use range_vec_kv.Document.{DocumentRecord}
use range_vec_kv.Document.Mutation.{is_empty}
use range_vec_kv.Outbox.{index_record}
use range_vec_kv.Gateway.State.{Backend, Gateway, Surroundings}
use range_vec_kv.Gateway.Guards.{or_default, owner_refusal}

-- records.back().key
unfoldable pub last_key_of : List DocumentRecord → Bytes
last_key_of [] = []
last_key_of (r ∷ []) = r.key
last_key_of (r ∷ s ∷ rest) = last_key_of (s ∷ rest)

-- The least key above a key: the key and a zero byte.
abbrev pub next_key : Bytes → Bytes
next_key k = k ++ 0 ∷ []

abbrev pub page_size : ℕ
page_size = 1000

module _ {Store World Vector : Type 0} (be : Backend Store World Vector) where
  unfoldable pub answer :
      Option (Option Status) → StatusOr DocumentRecord → Option (StatusOr DocumentRecord)
  answer none found = none
  answer (some (some st)) found = some (status st)
  answer (some none) found = some found

  -- GetKvRecord(collection, key, trace_id)
  unfoldable pub get_kv_record :
      Surroundings → Bytes → Bytes → Bytes → Gateway Store World → Option (StatusOr DocumentRecord)
  get_kv_record env collection key trace_id g =
      let c = or_default g.config collection in
      if g.started
      then answer (owner_refusal be env (bytes "kv") (bytes "kv record") trace_id g c key)
          (be.kv_store.get c key g.kv)
      else some (status (unavailable (bytes "server not started")))

  -- RangeKvRecords(collection, begin_key, end_key, limit)
  unfoldable pub range_kv_records :
      Bytes → Bytes → Bytes → ℕ → Gateway Store World → StatusOr (List DocumentRecord)
  range_kv_records collection begin_key end_key limit g =
      if g.started
      then be.kv_store.range (or_default g.config collection) begin_key end_key
          (min (max 1 limit) 1000) g.kv
      else status (unavailable (bytes "server not started"))

  -- The inner loop of ReindexDocuments: a status that is not ok ends the call.
  unfoldable pub index_all : List DocumentRecord → World → Status × World
  index_all [] w = (ok_status, w)
  index_all (r ∷ rs) w =
      let (st, w') = index_record be.services r w in
      let rest = index_all rs w' in if is_ok st then rest else (st, w')

  -- The outer loop, page by page. `none` means that the fuel ran out.
  unfoldable pub reindex_loop : ℕ → ℕ → Store → Bytes → Bytes → World → Option (Status × World)
  reindex_loop zero size kv collection begin_key w = none
  reindex_loop (suc fuel) size kv collection begin_key w =
      elim (be.kv_store.range collection begin_key [] size kv) [
        | status st ↦ some (st, w)
        | value page ↦
            let (st, w') = index_all page w in
            let rest = reindex_loop fuel size kv collection (next_key (last_key_of page)) w' in
            if is_empty page
            then some (ok_status, w)
            else if is_ok st
            then (if ltb (length page) size then some (ok_status, w') else rest)
            else some (st, w')
      ]

  -- The snapshot of the index at the end, which is written only if all went well.
  unfoldable pub flush_after : Gateway Store World → Status × World → Status × Gateway Store World
  flush_after g (st, w) =
      let (flushed, w') = be.flush_index w in
      if is_ok st then (flushed, record g { world = w' }) else (st, record g { world = w })

  -- ReindexDocuments(collection)
  unfoldable pub reindex_documents :
      ℕ → Bytes → Gateway Store World → Option (Status × Gateway Store World)
  reindex_documents fuel collection g =
      if g.started
      then elim (reindex_loop fuel page_size g.kv (or_default g.config collection) [] g.world) [
        | none ↦ none
        | some result ↦ some (flush_after g result)
      ]
      else some (unavailable (bytes "server not started"), g)
