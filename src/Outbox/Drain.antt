-- ===== src/Outbox/Drain.antt =====
-- DrainOnce: which documents it hands to the index and which stay, and what a call in between loses.
use range_vec_kv.Base.{
  ◌≡◌, refl, ap, sym, subst, ◌∙◌, true, false, none, some, [], ◌∷◌, ◌++◌, inl, inr, if◌then◌else◌,
  Bool-cases,
}
use range_vec_kv.Base.Bytes.{Bytes}
use range_vec_kv.OrderedMap.{Map, find, erase, insert_or_assign, keys}
use range_vec_kv.OrderedMap.Middle.{find-append, erase-append, erase-insert_or_assign}
use range_vec_kv.OrderedMap.Sorted.{IsSorted, erase-IsSorted}
use range_vec_kv.Status.{Status, ok_status, is_ok}
use range_vec_kv.Document.{DocumentRecord, key_of}
use range_vec_kv.Codec.{Protobuf}
use range_vec_kv.WalStore.{Io}
use range_vec_kv.Durability.Files.{IsWorking, IsReadableDocument}
use range_vec_kv.Outbox.{
  Outbox, Services, finish_task, index_record, drain_loop, drain_once, enqueue, begin_drain,
  recover_outbox, open_outbox,
}
use range_vec_kv.Outbox.Pending.{
  Saved, rewrite_working, finish_task-Saved, enqueue-Saved, recover-Saved,
}
use mathlib.Core.List.{append_assoc}

module _ {World Vector : Type 0} (sv : Services World Vector) where
  -- What one attempt for each document, in order, leaves: the documents that the index refused, and
  -- the state of the services.
  unfoldable pub attempts : Map DocumentRecord → World → Map DocumentRecord × World
  attempts [] w = ([], w)
  attempts ((k, r) ∷ m) w =
      let (rest, w') = attempts m (index_record sv r w).1 in
      (if is_ok (index_record sv r w).0 then rest else (k, r) ∷ rest, w')

module _ (pb : Protobuf) where
  finish_task_ok :
      (io : Io) (s : Outbox) (k : Bytes) (st : Status)
      → IsWorking io
      → is_ok st ≡ true
      → ((finish_task pb io s k st).0 ≡ none)
        × ((finish_task pb io s k st).1.pending ≡ erase k s.pending)
  unfolding finish_task
  finish_task_ok io s k st w e = rw (e, rewrite_working pb io _ w) (refl, refl)

  finish_task_failed :
      (io : Io) (s : Outbox) (k : Bytes) (st : Status)
      → is_ok st ≡ false
      → ((finish_task pb io s k st).0 ≡ none) × ((finish_task pb io s k st).1.pending ≡ s.pending)
  unfolding finish_task
  finish_task_failed io s k st e = rw e (refl, refl)

  enqueue_pending :
      (io : Io) (s : Outbox) (r : DocumentRecord)
      → IsWorking io
      → (enqueue pb io s r).1.pending ≡ insert_or_assign (key_of r) r s.pending
  unfolding enqueue
  enqueue_pending io s r w = rw (rewrite_working pb io _ w) refl

  module _ {World Vector : Type 0} (sv : Services World Vector) where
    -- A drain answered ok, left the documents `m` and the services in the state `w`.
    abbrev Drained : Status × (Outbox × World) → Map DocumentRecord → World → Type 0
    Drained x m w = (x.0 ≡ ok_status) × (x.1.0.pending ≡ m) × (x.1.1 ≡ w)

    drain_loop-attempts :
        (io : Bytes → Io) (d m : Map DocumentRecord) (s : Outbox) (w : World)
        → ((k : Bytes) → IsWorking (io k))
        → s.pending ≡ d ++ m
        → IsSorted (d ++ m)
        → Drained (drain_loop pb sv io (keys m) s w) (d ++ (attempts sv m w).0) (attempts sv m w).1
    unfolding drain_loop keys attempts
    drain_loop-attempts io d [] s w h e so = (refl, e, refl)
    drain_loop-attempts io d ((k, r) ∷ m) s w h e so =
        elim (Bool-cases (is_ok (index_record sv r w).0)) [
          | inl q ↦
              rw (found, drain_loop, (finish_task_ok (io k) s k st (h k) q).0, q)
                (drain_loop-attempts io d m s' w' h
                  ((finish_task_ok (io k) s k st (h k) q).1
                    ∙ ap (erase k) e
                    ∙ erase-append k r d m so)
                  (subst IsSorted (erase-append k r d m so)
                    (erase-IsSorted k (d ++ (k, r) ∷ m) so)))
          | inr q ↦
              rw (found, drain_loop, (finish_task_failed (io k) s k st q).0, q)
                (kept (drain_loop pb sv io (keys m) s' w') (
                  drain_loop-attempts io (d ++ (k, r) ∷ []) m s' w' h
                    ((finish_task_failed (io k) s k st q).1
                      ∙ e
                      ∙ sym (append_assoc d ((k, r) ∷ []) m))
                    (subst IsSorted (sym (append_assoc d ((k, r) ∷ []) m)) so)))
        ]
      where
        st : Status
        st = (index_record sv r w).0

        w' : World
        w' = (index_record sv r w).1

        s' : Outbox
        s' = (finish_task pb (io k) s k st).1

        kept :
            (x : Status × (Outbox × World))
            → Drained x ((d ++ (k, r) ∷ []) ++ (attempts sv m w').0) (attempts sv m w').1
            → Drained x (d ++ (k, r) ∷ (attempts sv m w').0) (attempts sv m w').1
        kept x (a, b, c) = (a, b ∙ append_assoc d ((k, r) ∷ []) (attempts sv m w').0, c)

        found : find k s.pending ≡ some r
        found = ap (find k) e ∙ find-append k r d m so

    -- DrainOnce, when no other call comes in between and file accesses succeed, answers ok, hands
    -- every pending document to the index once, in key order, and keeps exactly the documents
    -- that the embedding service or the index refused, whatever the two do.
    pub drain_once-attempts :
        (io : Bytes → Io) (s : Outbox) (w : World)
        → ((k : Bytes) → IsWorking (io k))
        → IsSorted s.pending
        → let x = drain_once pb sv io s w in
          (x.0 ≡ ok_status)
          × (x.1.0.pending ≡ (attempts sv s.pending w).0)
          × (x.1.1 ≡ (attempts sv s.pending w).1)
    unfolding drain_once begin_drain
    drain_once-attempts io s w h so = drain_loop-attempts io [] s.pending _ w h refl so

    -- DrainOnce has read a document and waits for the index, which takes it. If another thread
    -- meanwhile enqueues a newer document with the same key, nothing is left of it: the outbox waits
    -- for the same documents as without the Enqueue, and so does the outbox that Recover makes of its
    -- file, and the next DrainOnce leaves the services and the pending documents as it would have
    -- without the Enqueue, so that it does not offer the newer one to the index. (File accesses
    -- succeed, the outbox's file holds what is pending, and the newer document is read back as it was
    -- written.)
    pub enqueue_lost :
        (io : Io) (later : Bytes → Io) (s : Outbox) (older newer : DocumentRecord) (w : World)
        → IsWorking io
        → ((k : Bytes) → IsWorking (later k))
        → IsReadableDocument pb newer
        → Saved pb s
        → find (key_of newer) s.pending ≡ some older
        → is_ok (index_record sv older w).0 ≡ true
        → let (st, w') = index_record sv older w in
          let with_newer = (finish_task pb io (enqueue pb io s newer).1 (key_of newer) st).1 in
          let without = (finish_task pb io s (key_of newer) st).1 in
          (with_newer.pending ≡ without.pending)
          × ((recover_outbox pb io (open_outbox with_newer.file)).1.pending ≡ without.pending)
          × ((drain_once pb sv later with_newer w').1.0.pending
              ≡ (drain_once pb sv later without w').1.0.pending)
          × ((drain_once pb sv later with_newer w').1.1 ≡ (drain_once pb sv later without w').1.1)
    enqueue_lost io later s older newer w working works readable d waits e = (
      same,
      (recover-Saved pb io with_newer working after).1 ∙ same,
      drained.1 ∙ ap (λ m. (attempts sv m w').0) same ∙ sym (drained_without.1),
      drained.2 ∙ ap (λ m. (attempts sv m w').1) same ∙ sym (drained_without.2),
    )
      where
        st : Status
        st = (index_record sv older w).0

        w' : World
        w' = (index_record sv older w).1

        with_newer : Outbox
        with_newer = (finish_task pb io (enqueue pb io s newer).1 (key_of newer) st).1

        without : Outbox
        without = (finish_task pb io s (key_of newer) st).1

        after : Saved pb with_newer
        after =
            finish_task-Saved pb io _ (key_of newer) st working
              (enqueue-Saved pb io s newer working readable d)

        same : with_newer.pending ≡ without.pending
        same =
            (finish_task_ok io (enqueue pb io s newer).1 (key_of newer) st working e).1
            ∙ ap (erase (key_of newer)) (enqueue_pending io s newer working)
            ∙ erase-insert_or_assign (key_of newer) newer s.pending
            ∙ sym (finish_task_ok io s (key_of newer) st working e).1

        drained :
            Drained
              (drain_once pb sv later with_newer w')
              (attempts sv with_newer.pending w').0
              (attempts sv with_newer.pending w').1
        drained = drain_once-attempts later with_newer w' works after.sorted

        drained_without :
            Drained
              (drain_once pb sv later without w')
              (attempts sv without.pending w').0
              (attempts sv without.pending w').1
        drained_without =
            drain_once-attempts later without w' works
              (finish_task-Saved pb io s (key_of newer) st working d).sorted
