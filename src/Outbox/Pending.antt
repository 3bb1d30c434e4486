-- ===== src/Outbox/Pending.antt =====
-- The outbox's file: with working files it always holds the pending documents, so that Recover finds
-- them again.
use range_vec_kv.Base.{
  ◌≡◌, refl, ap, sym, subst, ◌∙◌, true, false, Option, none, some, List, [], ◌∷◌, ◌++◌, map, inl,
  inr, All, arith, Option-cases, Bool-cases,
}
use range_vec_kv.Base.Bytes.{Bytes}
use range_vec_kv.OrderedMap.{Map, insert_or_assign, values, find}
use range_vec_kv.OrderedMap.Laws.{All-insert_or_assign, All-erase}
use range_vec_kv.OrderedMap.Sorted.{IsSorted, insert_or_assign-IsSorted, erase-IsSorted}
use range_vec_kv.OrderedMap.Fold.{assign_all_self}
use range_vec_kv.Status.{Status, value, ok_status, is_ok}
use range_vec_kv.Document.{DocumentRecord, build_composite_key, key_of}
use range_vec_kv.Document.Mutation.{is_empty}
use range_vec_kv.Codec.{Protobuf, magic_header, decode_frames, encode_document_record}
use range_vec_kv.Codec.Frames.{encode_frames, decode_frames-encode_frames}
use range_vec_kv.WalStore.{Io, read_whole_file}
use range_vec_kv.Durability.Entries.{assign_records}
use range_vec_kv.Durability.Files.{IsWorking, IsReadableDocument, Holds, documents_fit}
use range_vec_kv.Durability.Invariant.{IsFiled, assign_records-values, values_readable}
use range_vec_kv.Outbox.{
  Outbox, Services, recover_tasks, with_tasks, recover_outbox, rewrite, enqueue, remove,
  begin_drain, finish_task, index_record, drain_loop, drain_once, open_outbox,
  ensure_outbox_directory,
}

module _ (pb : Protobuf) where
  -- The file holds what is pending.
  pub record Saved (s : Outbox) : Type 0 where
    pub holds : Holds pb s.file (map (encode_document_record pb) (values s.pending))
    pub sorted : IsSorted s.pending
    pub filed : All (IsFiled pb) s.pending

  abbrev pub after_rewrite : Outbox → Outbox
  after_rewrite s = record s {
    file =
        some (magic_header ++ encode_frames (map (encode_document_record pb) (values s.pending)));
  }

  pub rewrite_working :
      (io : Io) (s : Outbox) → IsWorking io → rewrite pb io s ≡ (ok_status, after_rewrite s)
  unfolding rewrite ensure_outbox_directory
  rewrite_working io s w = ground arith

  pub rewrite-Saved :
      (io : Io) (s : Outbox)
      → IsWorking io
      → IsSorted s.pending
      → All (IsFiled pb) s.pending
      → Saved (rewrite pb io s).1
  rewrite-Saved io s w so f =
      subst (λ x. Saved x.1) (sym (rewrite_working io s w))
        (record { holds = inr refl; sorted = so; filed = f })

  pub enqueue-Saved :
      (io : Io) (s : Outbox) (r : DocumentRecord)
      → IsWorking io
      → IsReadableDocument pb r
      → Saved s
      → Saved (enqueue pb io s r).1
  unfolding enqueue
  enqueue-Saved io s r w f d = rw (rewrite_working io _ w) (record {
    holds = inr refl;
    sorted = insert_or_assign-IsSorted (key_of r) r s.pending d.sorted;
    filed = All-insert_or_assign (IsFiled pb) (key_of r) r s.pending (refl, f) d.filed;
  })

  pub remove-Saved :
      (io : Io) (s : Outbox) (c k : Bytes) → IsWorking io → Saved s → Saved (remove pb io s c k).1
  unfolding remove
  remove-Saved io s c k w d =
      rewrite-Saved io _ w (erase-IsSorted (build_composite_key c k) s.pending d.sorted)
        (All-erase (IsFiled pb) (build_composite_key c k) s.pending d.filed)

  pub finish_task-Saved :
      (io : Io) (s : Outbox) (key : Bytes) (st : Status)
      → IsWorking io
      → Saved s
      → Saved (finish_task pb io s key st).1
  unfolding finish_task
  finish_task-Saved io s key st w d = elim (Bool-cases (is_ok st)) [
    | inl e ↦
        rw (e, rewrite_working io _ w)
          (record {
            holds = inr refl;
            sorted = erase-IsSorted key s.pending d.sorted;
            filed = All-erase (IsFiled pb) key s.pending d.filed;
          })
    | inr e ↦ rw e (record { holds = d.holds; sorted = d.sorted; filed = d.filed })
  ]

  recover_tasks-map :
      (m : Map DocumentRecord) (rs : List DocumentRecord)
      → All (IsReadableDocument pb) rs
      → recover_tasks pb m (map (encode_document_record pb) rs) ≡ (ok_status, assign_records m rs)
  unfolding recover_tasks assign_records
  recover_tasks-map m [] h = refl
  recover_tasks-map m (r ∷ rs) h =
      rw (h.0.decodes, recover_tasks) (recover_tasks-map (insert_or_assign (key_of r) r m) rs h.1)

  recover_tasks-values :
      (m : Map DocumentRecord)
      → IsSorted m
      → All (IsFiled pb) m
      → recover_tasks pb [] (map (encode_document_record pb) (values m)) ≡ (ok_status, m)
  recover_tasks-values m so f =
      recover_tasks-map [] (values m) (values_readable pb m f)
      ∙ ap (λ n. (ok_status, n)) (assign_records-values pb [] m f ∙ assign_all_self m so)

  recover_framed :
      (io : Io) (s : Outbox) (text : Bytes) (frames : List Bytes)
      → io.can_read ≡ true
      → s.file ≡ some text
      → is_empty text ≡ false
      → decode_frames text ≡ value frames
      → recover_outbox pb io s ≡ with_tasks pb s (recover_tasks pb [] frames)
  unfolding recover_outbox read_whole_file
  recover_framed io s text frames r f n d = ground arith

  no_values : (m : Map DocumentRecord) → map (encode_document_record pb) (values m) ≡ [] → m ≡ []
  unfolding values
  no_values [] e = refl
  no_values ((k, r) ∷ m) e = absurd (cc)

  -- Opening the file of such an outbox gives its tasks.
  pub recover-Saved :
      (io : Io) (s : Outbox)
      → IsWorking io
      → Saved s
      → ((recover_outbox pb io (open_outbox s.file)).0 ≡ ok_status)
        × ((recover_outbox pb io (open_outbox s.file)).1.pending ≡ s.pending)
  unfolding recover_outbox read_whole_file
  recover-Saved io s w d = by_file d.holds
    where
      by_file :
          Holds pb s.file (map (encode_document_record pb) (values s.pending))
          → ((recover_outbox pb io (open_outbox s.file)).0 ≡ ok_status)
            × ((recover_outbox pb io (open_outbox s.file)).1.pending ≡ s.pending)
      by_file (inl (absent, e)) = rw absent (refl, sym (no_values s.pending e))
      by_file (inr held) =
          rw
            (
              recover_framed io (open_outbox s.file) _ _ w.reads held refl (
                  decode_frames-encode_frames _
                    (documents_fit pb (values s.pending) (values_readable pb s.pending d.filed))),
              recover_tasks-values s.pending d.sorted d.filed,
            )
            (refl, refl)

  module _ {World Vector : Type 0} (sv : Services World Vector) where
    goes_on :
        (io : Bytes → Io) (ks : List Bytes) (w : World) (x : Option Status × Outbox)
        → ((s : Outbox) → Saved s → Saved (drain_loop pb sv io ks s w).1.0)
        → Saved x.1
        → Saved
            (elim x.0 as (λ o. Status × (Outbox × World)) [
              | none ↦ drain_loop pb sv io ks x.1 w
              | some e ↦ (e, (x.1, w))
            ]).1.0
    goes_on io ks w (none, s) rec d = rec s d
    goes_on io ks w (some e, s) rec d = d

    pub drain_loop-Saved :
        (io : Bytes → Io) (ks : List Bytes) (s : Outbox) (w : World)
        → ((k : Bytes) → IsWorking (io k))
        → Saved s
        → Saved (drain_loop pb sv io ks s w).1.0
    unfolding drain_loop
    drain_loop-Saved io [] s w h d = d
    drain_loop-Saved io (k ∷ ks) s w h d = elim (Option-cases (find k s.pending)) [
      | inl e ↦ rw (e, drain_loop) (drain_loop-Saved io ks s w h d)
      | inr (r, e) ↦
          rw (e, drain_loop)
            (goes_on io ks (index_record sv r w).1
              (finish_task pb (io k) s k (index_record sv r w).0)
              (λ s' d'. drain_loop-Saved io ks s' (index_record sv r w).1 h d')
              (finish_task-Saved (io k) s k (index_record sv r w).0 (h k) d))
    ]

    pub drain_once-Saved :
        (io : Bytes → Io) (s : Outbox) (w : World)
        → ((k : Bytes) → IsWorking (io k))
        → Saved s
        → Saved (drain_once pb sv io s w).1.0
    unfolding drain_once begin_drain
    drain_once-Saved io s w h d =
        drain_loop-Saved io _ _ w h (record { holds = d.holds; sorted = d.sorted; filed = d.filed })

    -- The calls that change the outbox, one at a time.
    pub data Call : Type 0 where
      enqueues : DocumentRecord → Call
      removes : Bytes → Bytes → Call
      drains : Call

    unfoldable pub call : Outbox × World → (Bytes → Io) × Call → Outbox × World
    call (s, w) (io, enqueues r) = ((enqueue pb (io (key_of r)) s r).1, w)
    call (s, w) (io, removes c k) = ((remove pb (io (build_composite_key c k)) s c k).1, w)
    call (s, w) (io, drains) = (drain_once pb sv io s w).1

    unfoldable pub calls : Outbox × World → List ((Bytes → Io) × Call) → Outbox × World
    calls x [] = x
    calls x (c ∷ cs) = calls (call x c) cs

    -- The file system works, and a document that is enqueued can be read back.
    abbrev pub IsFineCall : (Bytes → Io) × Call → Type 0
    IsFineCall (io, enqueues r) = ((k : Bytes) → IsWorking (io k)) × IsReadableDocument pb r
    IsFineCall (io, removes c k) = (j : Bytes) → IsWorking (io j)
    IsFineCall (io, drains) = (j : Bytes) → IsWorking (io j)

    call-Saved :
        (x : Outbox × World) (c : (Bytes → Io) × Call)
        → IsFineCall c
        → Saved x.0
        → Saved (call x c).0
    unfolding call
    call-Saved (s, w) (io, enqueues r) h d = enqueue-Saved (io (key_of r)) s r (h.0 _) h.1 d
    call-Saved (s, w) (io, removes c k) h d = remove-Saved (io _) s c k (h _) d
    call-Saved (s, w) (io, drains) h d = drain_once-Saved io s w h d

    pub calls-Saved :
        (x : Outbox × World) (cs : List ((Bytes → Io) × Call))
        → All IsFineCall cs
        → Saved x.0
        → Saved (calls x cs).0
    unfolding calls
    calls-Saved x [] h d = d
    calls-Saved x (c ∷ cs) h d = calls-Saved (call x c) cs h.1 (call-Saved x c h.0 d)

    -- After any calls of Enqueue, Remove and DrainOnce on an outbox that began without a file,
    -- whatever the embedding service and the index answer, Recover on the outbox's file answers ok and
    -- finds exactly the tasks that are pending, provided that file accesses succeed and that the
    -- documents are read back as they were written.
    pub recover-calls :
        (io : Io) (w : World) (cs : List ((Bytes → Io) × Call))
        → IsWorking io
        → All IsFineCall cs
        → let s = (calls (open_outbox none, w) cs).0 in
          ((recover_outbox pb io (open_outbox s.file)).0 ≡ ok_status)
          × ((recover_outbox pb io (open_outbox s.file)).1.pending ≡ s.pending)
    unfolding values
    recover-calls io w cs h fine = recover-Saved io (calls (open_outbox none, w) cs).0 h (
        calls-Saved (open_outbox none, w) cs fine
          (record { holds = inl (refl, refl); sorted = tt; filed = tt }))
