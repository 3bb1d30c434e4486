-- ===== src/Serving/Stored.antt =====
-- What PrepareMutation, Put and the outbox of the gateway (src/gateway/server.cpp) leave alone.
use range_vec_kv.Base.{
  ℕ, ◌==◌, ◌≡◌, refl, ◌∙◌, true, Option, none, some, inl, inr, arith, Bool-cases,
}
use range_vec_kv.Base.Bytes.{Bytes}
use range_vec_kv.Base.Int.{ℤ, is_zero}
use range_vec_kv.Status.{is_ok}
use range_vec_kv.Document.{DocumentRecord}
use range_vec_kv.Document.Mutation.{is_empty}
use range_vec_kv.Outbox.{Outbox, enqueue}
use range_vec_kv.Gateway.{
  Backend, Gateway, Surroundings, prepare_mutation, stamp_time, stamp_version, stamp_mutation,
  store_put, put_and_index, hand_over,
}

abbrev pub HasSameAddress : DocumentRecord → DocumentRecord → Type 0
HasSameAddress r r' = (r'.collection ≡ r.collection) × (r'.key ≡ r.key)

stamp_time-HasSameAddress : (now : ℤ) (r : DocumentRecord) → HasSameAddress r (stamp_time now r)
unfolding stamp_time
stamp_time-HasSameAddress now r = elim (Bool-cases (is_zero r.updated_at_unix_ms)) [
  | inl e ↦ rw e (refl, refl)
  | inr e ↦ rw e (refl, refl)
]

stamp_version-HasSameAddress : (r : DocumentRecord) → HasSameAddress r (stamp_version r)
unfolding stamp_version
stamp_version-HasSameAddress r = elim (Bool-cases (r.version == 0)) [
  | inl e ↦ rw e (refl, refl)
  | inr e ↦ rw e (refl, refl)
]

stamp_mutation-HasSameAddress :
    (node : Bytes) (count : ℕ) (r : DocumentRecord)
    → HasSameAddress r (stamp_mutation node count r).0
unfolding stamp_mutation
stamp_mutation-HasSameAddress node count r = elim (Bool-cases (is_empty r.mutation_id)) [
  | inl e ↦ rw e (refl, refl)
  | inr e ↦ rw e (refl, refl)
]

-- PrepareMutation leaves collection and key alone.
pub prepare_mutation-HasSameAddress :
    (node : Bytes) (now : ℤ) (count : ℕ) (r : DocumentRecord)
    → HasSameAddress r (prepare_mutation node now count r).0
unfolding prepare_mutation
prepare_mutation-HasSameAddress node now count r =
    (third.0 ∙ second.0 ∙ first.0, third.1 ∙ second.1 ∙ first.1)
  where
    first : HasSameAddress r (stamp_time now r)
    first = stamp_time-HasSameAddress now r

    second : HasSameAddress (stamp_time now r) (stamp_version (stamp_time now r))
    second = stamp_version-HasSameAddress (stamp_time now r)

    third :
        HasSameAddress
          (stamp_version (stamp_time now r))
          (stamp_mutation node count (stamp_version (stamp_time now r))).0
    third = stamp_mutation-HasSameAddress node count (stamp_version (stamp_time now r))

module _ {Store World Vector : Type 0} (be : Backend Store World Vector) where
  -- The two gateways differ in outbox, index and counter at most.
  pub record HasSameStore (g h : Gateway Store World) : Type 0 where
    pub same_kv : h.kv ≡ g.kv
    pub same_config : h.config ≡ g.config
    pub same_router : h.router ≡ g.router
    pub same_started : h.started ≡ g.started

  hand_over-HasSameStore :
      (env : Surroundings) (r : DocumentRecord) (g : Gateway Store World) (o : Option Outbox)
      → HasSameStore g (hand_over be env r g o).1
  unfolding hand_over
  hand_over-HasSameStore env r g none = record {
    same_kv = refl;
    same_config = refl;
    same_router = refl;
    same_started = refl;
  }
  hand_over-HasSameStore env r g (some o) =
      elim (Bool-cases (is_ok (enqueue be.protobuf env.io o r).0)) [
        | inl e ↦
            rw e (record {
              same_kv = refl;
              same_config = refl;
              same_router = refl;
              same_started = refl;
            })
        | inr e ↦
            rw e (record {
              same_kv = refl;
              same_config = refl;
              same_router = refl;
              same_started = refl;
            })
      ]

  -- A put that returns ok leaves the store that the KvStore's Put makes, after an ok from there.
  pub record IsStoredBy (r : DocumentRecord) (g g' : Gateway Store World) : Type 0 where
    pub stored_ok : is_ok (be.kv_store.put r g.kv).0 ≡ true
    pub stored_kv : g'.kv ≡ (be.kv_store.put r g.kv).1
    pub stored_config : g'.config ≡ g.config
    pub stored_router : g'.router ≡ g.router
    pub stored_started : g'.started ≡ g.started

  pub store_put-IsStoredBy :
      (r : DocumentRecord) (g : Gateway Store World)
      → is_ok (store_put be r g).0 ≡ true
      → IsStoredBy r g (store_put be r g).1
  unfolding store_put
  store_put-IsStoredBy r g h = record {
    stored_ok = h;
    stored_kv = refl;
    stored_config = refl;
    stored_router = refl;
    stored_started = refl;
  }

  pub put_and_index-IsStoredBy :
      (env : Surroundings) (r : DocumentRecord) (g : Gateway Store World)
      → is_ok (put_and_index be env r g).0 ≡ true
      → IsStoredBy r g (put_and_index be env r g).1
  unfolding put_and_index store_put
  put_and_index-IsStoredBy env r g h = elim (Bool-cases (is_ok (be.kv_store.put r g.kv).0)) [
    | inl e ↦ rw e (handed e)
    | inr e ↦ absurd (ground (arith, e, (rw e at h)))
  ]
    where
      handed :
          is_ok (be.kv_store.put r g.kv).0 ≡ true
          → IsStoredBy r g (hand_over be env r (store_put be r g).1 g.vector_outbox).1
      handed e = record {
        stored_ok = e;
        stored_kv = same.same_kv;
        stored_config = same.same_config;
        stored_router = same.same_router;
        stored_started = same.same_started;
      }
        where
          same :
              HasSameStore
                (store_put be r g).1
                (hand_over be env r (store_put be r g).1 g.vector_outbox).1
          same = hand_over-HasSameStore env r (store_put be r g).1 g.vector_outbox
