-- ===== src/Serving/Verdicts.antt =====
-- The guards of the gateway's writes (src/gateway/server.cpp): a write that is refused changes nothing,
-- and one that is carried out was asked of a started, writable gateway that owns the key.
use range_vec_kv.Base.{
  ℕ, ◌≡◌, refl, Bool, true, false, not, ◌&&◌, Option, none, some, if_true, if_false, Bool-cases,
  Option-cases, inl, inr, ◌⊎◌,
}
use range_vec_kv.Base.Bytes.{Bytes, bytes}
use range_vec_kv.Status.{Status, is_ok, unavailable}
use range_vec_kv.Document.{DocumentRecord}
use range_vec_kv.Document.Mutation.{is_empty}
use range_vec_kv.Routing.{RouteDecision}
use range_vec_kv.Gateway.{
  Backend, GatewayConfig, Gateway, Surroundings, or_default, in_collection, write_refusal,
  remote_refusal, describe_route, owner_refusal, write_guard, behind_guard, stamp, put_and_index,
  store_put, store_delete, remove_and_delete, upsert_document, put_kv_record, delete_document,
  delete_kv_record, ensure_trace_id,
}

module _ {Store World Vector : Type 0} (be : Backend Store World Vector) where
  -- The router finds an owner for the key, and it is this node, or there is no owner.
  pub record IsServed (fuel : ℕ) (g : Gateway Store World) (collection key : Bytes) : Type 0 where
    pub decision : RouteDecision
    pub returns : describe_route be fuel g collection key ≡ some decision
    pub owned : (decision.has_primary && not decision.local_owner) ≡ false

  pub data Verdict (fuel : ℕ) (g : Gateway Store World) (collection key : Bytes)
      : Option (Option Status) → Type 0 where
    never : describe_route be fuel g collection key ≡ none → Verdict fuel g collection key none
    refuses : (st : Status) → is_ok st ≡ false → Verdict fuel g collection key (some (some st))
    serves :
        is_empty key ≡ false
        → IsServed fuel g collection key
        → Verdict fuel g collection key (some none)

  remote_refusal-Verdict :
      (fuel : ℕ) (subject trace : Bytes) (g : Gateway Store World) (c k : Bytes) (d : RouteDecision)
      → is_empty k ≡ false
      → describe_route be fuel g c k ≡ some d
      → Verdict fuel g c k (some (remote_refusal subject d trace))
  unfolding remote_refusal
  remote_refusal-Verdict fuel subject trace g c k d e q =
      elim (Bool-cases (d.has_primary && not d.local_owner)) [
        | inl r ↦ rw r (refuses _ refl)
        | inr l ↦ rw l (serves e (record { decision = d; returns = q; owned = l }))
      ]

  pub owner_refusal-Verdict :
      (env : Surroundings) (label subject trace_id : Bytes) (g : Gateway Store World) (c k : Bytes)
      → Verdict env.fuel g c k (owner_refusal be env label subject trace_id g c k)
  unfolding owner_refusal
  owner_refusal-Verdict env label subject trace_id g c k = elim (Bool-cases (is_empty k)) [
    | inl e ↦ rw e (refuses _ refl)
    | inr e ↦ rw e (elim (Option-cases (describe_route be env.fuel g c k)) [
      | inl q ↦ rw (q, owner_refusal) (never q)
      | inr (d, q) ↦
          rw (q, owner_refusal)
            (remote_refusal-Verdict env.fuel subject (ensure_trace_id env trace_id) g c k d e q)
    ])
  ]

  -- The two ways in which a gateway takes no writes.
  pub write_refusal-cases :
      (g : Gateway Store World)
      → ((st : Status) × (write_refusal g.config g.started ≡ some st) × (is_ok st ≡ false))
        ⊎ ((write_refusal g.config g.started ≡ none)
            × (g.started ≡ true)
            × (g.config.read_only_mode ≡ false))
  unfolding write_refusal
  write_refusal-cases g = by_fields g.config g.started
    where
      by_fields :
          (config : GatewayConfig) (started : Bool)
          → ((st : Status) × (write_refusal config started ≡ some st) × (is_ok st ≡ false))
            ⊎ ((write_refusal config started ≡ none)
                × (started ≡ true)
                × (config.read_only_mode ≡ false))
      by_fields config false = inl (unavailable (bytes "server not started"), refl, refl)
      by_fields config true = elim (Bool-cases config.read_only_mode) [
        | inl e ↦ inl (
          unavailable (bytes "storage is in read-only mode"),
          if_true config.read_only_mode _ _ e,
          refl,
        )
        | inr e ↦ inr (if_false config.read_only_mode _ _ e, refl, e)
      ]

  -- What a write of the record with this collection and key does, if it is carried out with the
  -- result `performed`.
  pub data WriteOutcome (fuel : ℕ) (g : Gateway Store World) (collection key : Bytes)
      (performed : Status × Gateway Store World)
      : Option (Status × Gateway Store World) → Type 0 where
    endless :
        describe_route be fuel g collection key ≡ none
        → WriteOutcome fuel g collection key performed none
    refused :
        (st : Status)
        → is_ok st ≡ false
        → WriteOutcome fuel g collection key performed (some (st, g))
    done :
        g.started ≡ true
        → g.config.read_only_mode ≡ false
        → is_empty key ≡ false
        → IsServed fuel g collection key
        → WriteOutcome fuel g collection key performed (some performed)

  pub write_guard-WriteOutcome :
      (env : Surroundings) (label subject trace_id : Bytes) (g : Gateway Store World) (c k : Bytes)
      (performed : Status × Gateway Store World)
      → WriteOutcome env.fuel g
          (or_default g.config c)
          k
          performed
          (behind_guard be g (write_guard be env label subject trace_id g c k) performed)
  unfolding write_guard behind_guard
  write_guard-WriteOutcome env label subject trace_id g c k performed =
      elim (write_refusal-cases g) [
        | inl (st, e, f) ↦ rw (e, write_guard) (refused st f)
        | inr (e, on, writable) ↦
            rw (e, write_guard)
              (by_verdict on writable
                (owner_refusal-Verdict env label subject trace_id g (or_default g.config c) k))
      ]
    where
      by_verdict :
          {x : Option (Option Status)}
          → g.started ≡ true
          → g.config.read_only_mode ≡ false
          → Verdict env.fuel g (or_default g.config c) k x
          → WriteOutcome env.fuel g
              (or_default g.config c)
              k
              performed
              (behind_guard be g x performed)
      by_verdict on writable (never q) = endless q
      by_verdict on writable (refuses st f) = refused st f
      by_verdict on writable (serves e served) = done on writable e served

  -- The four writes of one record.
  pub data WriteCall : Type 0 where
    upserts puts_kv : DocumentRecord → WriteCall
    deletes_document deletes_kv : Bytes → Bytes → WriteCall

  abbrev pub collection_of : WriteCall → Bytes
  collection_of (upserts r) = r.collection
  collection_of (puts_kv r) = r.collection
  collection_of (deletes_document c k) = c
  collection_of (deletes_kv c k) = c

  abbrev pub written_key : WriteCall → Bytes
  written_key (upserts r) = r.key
  written_key (puts_kv r) = r.key
  written_key (deletes_document c k) = k
  written_key (deletes_kv c k) = k

  abbrev pub perform :
      Surroundings → Bytes → WriteCall → Gateway Store World → Option (Status × Gateway Store World)
  perform env trace_id (upserts r) g = upsert_document be env r trace_id g
  perform env trace_id (puts_kv r) g = put_kv_record be env r trace_id g
  perform env trace_id (deletes_document c k) g = delete_document be env c k trace_id g
  perform env trace_id (deletes_kv c k) g = delete_kv_record be env c k trace_id g

  -- The work behind the guards: the store, and for documents the outbox and the index.
  abbrev pub effect : Surroundings → WriteCall → Gateway Store World → Status × Gateway Store World
  effect env (upserts r) g =
      let (r', g') = stamp be env (in_collection g.config r) g in put_and_index be env r' g'
  effect env (puts_kv r) g =
      let (r', g') = stamp be env (in_collection g.config r) g in store_put be r' g'
  effect env (deletes_document c k) g = remove_and_delete be env (or_default g.config c) k g
  effect env (deletes_kv c k) g = store_delete be (or_default g.config c) k g

  -- UpsertDocument, PutKvRecord, DeleteDocument and DeleteKvRecord either refuse with a status that
  -- is not ok and change nothing at all, or do their work, and then the gateway is started and takes
  -- writes, the key is not empty, and the router names this node as its owner or none. They do not
  -- return only where Route does not.
  pub perform-WriteOutcome :
      (env : Surroundings) (trace_id : Bytes) (call : WriteCall) (g : Gateway Store World)
      → WriteOutcome env.fuel g
          (or_default g.config (collection_of call))
          (written_key call)
          (effect env call g)
          (perform env trace_id call g)
  unfolding upsert_document put_kv_record delete_document delete_kv_record
  perform-WriteOutcome env trace_id (upserts r) g =
      write_guard-WriteOutcome env (bytes "document") (bytes "document") trace_id g r.collection
        r.key _
  perform-WriteOutcome env trace_id (puts_kv r) g =
      write_guard-WriteOutcome env (bytes "kv") (bytes "kv record") trace_id g r.collection r.key _
  perform-WriteOutcome env trace_id (deletes_document c k) g =
      write_guard-WriteOutcome env (bytes "document") (bytes "document") trace_id g c k _
  perform-WriteOutcome env trace_id (deletes_kv c k) g =
      write_guard-WriteOutcome env (bytes "kv") (bytes "kv record") trace_id g c k _
