-- ===== src/Serving/ReadBack.antt =====
-- What the gateway (src/gateway/server.cpp) stored is what it then answers.
use range_vec_kv.Base.{
  ℕ, ◌≡◌, refl, ap, ◌∙◌, sym, subst, Bool, true, false, Option, none, some, ◌⊎◌, if_true, arith,
}
use mathlib.Core.Option.{some-injective}
use range_vec_kv.Base.Bytes.{Bytes, bytes}
use range_vec_kv.Status.{Status, StatusOr, value, is_ok}
use range_vec_kv.Document.{DocumentRecord}
use range_vec_kv.Document.Mutation.{is_empty, is_duplicate_mutation}
use range_vec_kv.Gateway.{
  Backend, Gateway, Surroundings, or_default, in_collection, describe_route, owner_refusal,
  remote_refusal, stamp, answer, get_kv_record,
}
use range_vec_kv.Serving.Laws.{StoreLaws}
use range_vec_kv.Serving.Verdicts.{
  IsServed, WriteOutcome, endless, refused, done, WriteCall, upserts, puts_kv, perform, effect,
  perform-WriteOutcome,
}
use range_vec_kv.Serving.Stored.{
  HasSameAddress, prepare_mutation-HasSameAddress, IsStoredBy, store_put-IsStoredBy,
  put_and_index-IsStoredBy,
}

module _ {Store World Vector : Type 0} (be : Backend Store World Vector) where
  served-owner_refusal :
      (env : Surroundings) (label subject trace_id : Bytes) (g : Gateway Store World) (c k : Bytes)
      → is_empty k ≡ false
      → IsServed be env.fuel g c k
      → owner_refusal be env label subject trace_id g c k ≡ some none
  unfolding owner_refusal remote_refusal
  served-owner_refusal env label subject trace_id g c k e served =
      rw (e, served.returns, owner_refusal, served.owned) refl

  describe_route-congr :
      (fuel : ℕ) (g h : Gateway Store World) (c k : Bytes)
      → h.config ≡ g.config
      → h.router ≡ g.router
      → describe_route be fuel h c k ≡ describe_route be fuel g c k
  unfolding describe_route
  describe_route-congr fuel g h c k e f = cc

  -- What GetKvRecord answers on a gateway that serves the key.
  served_answer :
      (env : Surroundings) (trace_id : Bytes) (g : Gateway Store World) (c k : Bytes)
      (d : DocumentRecord)
      → g.started ≡ true
      → is_empty k ≡ false
      → IsServed be env.fuel g (or_default g.config c) k
      → be.kv_store.get (or_default g.config c) k g.kv ≡ value d
      → get_kv_record be env c k trace_id g ≡ some (value d)
  unfolding get_kv_record answer
  served_answer env trace_id g c k d on e served found =
      if_true g.started _ _ on
      ∙ rw
          (served-owner_refusal env (bytes "kv") (bytes "kv record") trace_id g
            (or_default g.config c) k e served)
          (ap some found)

  get_congr :
      (c c' k k' : Bytes) (s s' : Store)
      → c ≡ c'
      → k ≡ k'
      → s ≡ s'
      → be.kv_store.get c k s ≡ be.kv_store.get c' k' s'
  get_congr c c' k k' s s' p q e = cc

  -- UpsertDocument or PutKvRecord.
  abbrev pub put_call : Bool → DocumentRecord → WriteCall be
  put_call true r = upserts r
  put_call false r = puts_kv r

  -- The document that the call hands to the store.
  abbrev pub stamped : Surroundings → DocumentRecord → Gateway Store World → DocumentRecord
  stamped env r g = (stamp be env (in_collection g.config r) g).0

  effect-IsStoredBy :
      (env : Surroundings) (indexed : Bool) (r : DocumentRecord) (g : Gateway Store World)
      → is_ok (effect be env (put_call indexed r) g).0 ≡ true
      → IsStoredBy be
          (stamped env r g)
          (stamp be env (in_collection g.config r) g).1
          (effect be env (put_call indexed r) g).1
  effect-IsStoredBy env true r g h = put_and_index-IsStoredBy be env _ _ h
  effect-IsStoredBy env false r g h = store_put-IsStoredBy be _ _ h

  stamped-HasSameAddress :
      (env : Surroundings) (r : DocumentRecord) (g : Gateway Store World)
      → HasSameAddress (in_collection g.config r) (stamped env r g)
  unfolding stamp
  stamped-HasSameAddress env r g =
      prepare_mutation-HasSameAddress g.config.node_id env.now_ms g.mutation_count
        (in_collection g.config r)

  -- What the later GetKvRecord finds.
  abbrev pub Found : DocumentRecord → Option (StatusOr DocumentRecord) → Type 0
  Found r found =
      (d : DocumentRecord) × (found ≡ some (value d))
      × ((d ≡ r) ⊎ (is_duplicate_mutation d r ≡ true))

  module _ (laws : StoreLaws be.kv_store) (env : Surroundings) (trace_id later_trace : Bytes)
      (r : DocumentRecord) (g : Gateway Store World) where
    record-Found :
        (g' : Gateway Store World)
        → IsStoredBy be (stamped env r g) (stamp be env (in_collection g.config r) g).1 g'
        → g.started ≡ true
        → is_empty r.key ≡ false
        → IsServed be env.fuel g (or_default g.config r.collection) r.key
        → Found (stamped env r g) (get_kv_record be env r.collection r.key later_trace g')
    unfolding stamp
    record-Found g' stored on e served =
        let (d, found, same) = laws.get-put (stamped env r g) g.kv stored.stored_ok in
        (
          d,
          served_answer env later_trace g' r.collection r.key d (stored.stored_started ∙ on) e
              served_later
              (get_congr _ _ _ _ _ _ (same_collection ∙ sym (stamped-HasSameAddress env r g).0)
                  (sym (stamped-HasSameAddress env r g).1) stored.stored_kv
                ∙ found),
          same,
        )
      where
        same_collection : or_default g'.config r.collection ≡ or_default g.config r.collection
        same_collection = ap (λ x. or_default x r.collection) stored.stored_config

        served_later : IsServed be env.fuel g' (or_default g'.config r.collection) r.key
        served_later = record {
          decision = served.decision;
          returns =
              ap (λ c. describe_route be env.fuel g' c r.key) same_collection
              ∙ describe_route-congr env.fuel g g' (or_default g.config r.collection) r.key
                  stored.stored_config stored.stored_router
              ∙ served.returns;
          owned = served.owned;
        }

    -- If UpsertDocument or PutKvRecord of a document returns ok, then GetKvRecord with the same
    -- collection and key answers at once with that document, as PrepareMutation completed it, or with
    -- the document that was stored before if that has the same mutation id. This holds with a store
    -- that keeps the promises of `StoreLaws`.
    pub get_kv_record-perform :
        (indexed : Bool) (st : Status) (g' : Gateway Store World)
        → perform be env trace_id (put_call indexed r) g ≡ some (st, g')
        → is_ok st ≡ true
        → Found (stamped env r g) (get_kv_record be env r.collection r.key later_trace g')
    get_kv_record-perform indexed st g' e ok = by_outcome (address indexed) e
      where
        Written : Bool → Option (Status × Gateway Store World) → Type 0
        Written b x =
            WriteOutcome be env.fuel g (or_default g.config r.collection) r.key
              (effect be env (put_call b r) g) x

        address : (b : Bool) → Written b (perform be env trace_id (put_call b r) g)
        address true = perform-WriteOutcome be env trace_id (upserts r) g
        address false = perform-WriteOutcome be env trace_id (puts_kv r) g

        by_outcome :
            {x : Option (Status × Gateway Store World)}
            → Written indexed x
            → x ≡ some (st, g')
            → Found (stamped env r g) (get_kv_record be env r.collection r.key later_trace g')
        by_outcome (endless q) p = absurd (cc)
        by_outcome (refused t f) p = absurd (
            ground (
              arith,
              ap (λ (y : Status × Gateway Store World). is_ok y.0) (some-injective _ _ p),
              f,
              ok,
            ))
        by_outcome (done on writable ne served) p =
            subst
              (λ (y : Status × Gateway Store World).
                Found (stamped env r g) (get_kv_record be env r.collection r.key later_trace y.1))
              (some-injective _ _ p)
              (record-Found (effect be env (put_call indexed r) g).1
                (effect-IsStoredBy env indexed r g
                  (ap (λ y. is_ok y.0) (some-injective _ _ p) ∙ ok))
                on ne served)
