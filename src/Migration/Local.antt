-- ===== src/Migration/Local.antt =====
-- ProcessDueDeletes of src/gateway/data_migration.cpp over a write-ahead store: documents that the node
-- owns stay.
use range_vec_kv.Base.{
  ◌⊎◌, ℕ, ◌≡◌, refl, ap, ◌∙◌, sym, leb, Bool, true, false, List, [], ◌∷◌, All, if◌then◌else◌,
  if_false, if_true, arith, Bool-cases, inl, inr,
}
use range_vec_kv.Base.Bytes.{Bytes, bytes_eq, bytes_eq→eq}
use range_vec_kv.OrderedMap.Laws.{find-erase}
use range_vec_kv.Status.{Status, ok_status, is_ok}
use range_vec_kv.Document.{build_composite_key}
use range_vec_kv.Document.Keys.{IsPlain, build_composite_key-injective}
use range_vec_kv.Codec.{Protobuf}
use range_vec_kv.WalStore.{Io, WalStore, get, delete_record}
use range_vec_kv.Routing.{RouteDecision}
use range_vec_kv.Serving.Laws.{wal_kv}
use range_vec_kv.Migration.{Task, Migration, Clock}
use range_vec_kv.Migration.Service.{is_remote, split_due}
use range_vec_kv.Migration.Worker.{
  delete_local_if_still_remote, delete_due, after_delete, process_due_deletes,
}

abbrev pub IsPlainTask : Task → Type 0
IsPlainTask t = IsPlain t.document.collection

split_due-All :
    (P : Task → Type 0) (now : ℕ) (tasks : List Task) → All P tasks → All P (split_due now tasks).0
unfolding split_due
split_due-All P now [] h = tt
split_due-All P now (t ∷ tasks) h = elim (Bool-cases (leb t.delete_after now)) [
  | inl e ↦ rw e (h.0, split_due-All P now tasks h.1)
  | inr e ↦ rw e (split_due-All P now tasks h.1)
]

get-delete_record :
    (pb : Protobuf) (io : Io) (s : WalStore) (c k d j : Bytes)
    → bytes_eq (build_composite_key c k) (build_composite_key d j) ≡ false
    → get (delete_record pb io s d j).1 c k ≡ get s c k
unfolding delete_record get
get-delete_record pb io s c k d j e =
    rw (get, find-erase (build_composite_key c k) (build_composite_key d j) s.records, e) refl

module _ (route_of : Bytes → Bytes → RouteDecision) {World : Type 0} (pb : Protobuf) (io : Io)
    (remove_vector : Bytes → Bytes → World → Status × World) (c k : Bytes) (plain : IsPlain c)
    (local : ((route_of c k).has_primary ≡ false) ⊎ ((route_of c k).local_owner ≡ true)) where
  not_remote : is_remote (route_of c k) ≡ false
  not_remote = by_owner local
    where
      by_owner :
          ((route_of c k).has_primary ≡ false) ⊎ ((route_of c k).local_owner ≡ true)
          → is_remote (route_of c k) ≡ false
      by_owner (inl e) = ground (arith, e)
      by_owner (inr e) = ground (arith, e)

  after_delete-store :
      (t : Task) (w : World) (p : Status × WalStore)
      → (after_delete route_of (wal_kv pb io) remove_vector t w p).1 ≡ p.1
  unfolding after_delete
  after_delete-store t w (st, s) = elim (Bool-cases (is_ok st)) [
    | inl e ↦ rw e (by_semantic t.semantic)
    | inr e ↦ rw e refl
  ]
    where
      by_semantic :
          (b : Bool)
          → (λ (p : Status × WalStore × World). p.1)
              (if b
                then (
                  (remove_vector t.document.collection t.document.key w).0,
                  s,
                  (remove_vector t.document.collection t.document.key w).1,
                )
                else (ok_status, s, w))
            ≡ s
      by_semantic true = refl
      by_semantic false = refl

  -- The document of a task that is remote is another one.
  differs :
      (t : Task)
      → IsPlainTask t
      → is_remote (route_of t.document.collection t.document.key) ≡ true
      → bytes_eq
          (build_composite_key c k)
          (build_composite_key t.document.collection t.document.key)
        ≡ false
  differs t h remote =
      elim (Bool-cases (
        bytes_eq (build_composite_key c k)
          (build_composite_key t.document.collection t.document.key))) [
            | inr e ↦ e
            | inl e ↦ absurd (
                clash (
                  build_composite_key-injective c t.document.collection k t.document.key plain h
                    (bytes_eq→eq _ _ e)))
          ]
    where
      clash : (c ≡ t.document.collection) × (k ≡ t.document.key) → ⊥
      clash (p, q) = ground (
        arith,
        sym not_remote
            ∙ ap (λ x. is_remote (route_of x k)) p
            ∙ ap (λ y. is_remote (route_of t.document.collection y)) q
            ∙ remote,
      )

  delete_local-get :
      (t : Task) (s : WalStore) (w : World)
      → IsPlainTask t
      → get (delete_local_if_still_remote route_of (wal_kv pb io) remove_vector t s w).1 c k
        ≡ get s c k
  unfolding delete_local_if_still_remote
  delete_local-get t s w h =
      elim (Bool-cases (is_remote (route_of t.document.collection t.document.key))) [
        | inl e ↦
            ap (λ (p : Status × WalStore × World). get p.1 c k) (if_true _ _ _ e)
            ∙ ap (λ x. get x c k) (after_delete-store t w _)
            ∙ get-delete_record pb io s c k t.document.collection t.document.key (differs t h e)
        | inr e ↦ ap (λ (p : Status × WalStore × World). get p.1 c k) (if_false _ _ _ e)
      ]

  delete_due-get :
      (due : List Task) (m : Migration) (s : WalStore) (w : World)
      → All IsPlainTask due
      → get (delete_due route_of (wal_kv pb io) remove_vector due m s w).1 c k ≡ get s c k
  unfolding delete_due
  delete_due-get [] m s w h = refl
  delete_due-get (t ∷ due) m s w h = delete_due-get due _ _ _ h.1 ∙ delete_local-get t s w h.0

  -- In a write-ahead store, and with names of collections without the separator, ProcessDueDeletes
  -- leaves a document that by the route the node itself owns, or that has no owner, as it is,
  -- whichever deletions are due: Get answers with the same after it.
  pub process_due_deletes-get :
      (dump : List (Bytes × Task) → Bytes) (now : Clock) (file : Io) (m : Migration) (s : WalStore)
      (w : World)
      → All IsPlainTask m.delayed_delete
      → get (process_due_deletes route_of (wal_kv pb io) remove_vector dump now file m s w).1 c k
        ≡ get s c k
  unfolding process_due_deletes
  process_due_deletes-get dump now file m s w h =
      delete_due-get (split_due now.steady_ms m.delayed_delete).0 _ s w
        (split_due-All IsPlainTask now.steady_ms m.delayed_delete h)
