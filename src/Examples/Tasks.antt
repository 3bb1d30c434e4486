-- ===== src/Examples/Tasks.antt =====
-- Outboxes at which the theorems about waiting documents are applied.
use range_vec_kv.Base.{
  ℕ, ◌≡◌, refl, none, some, List, [], ◌∷◌, ◌++◌, length, if◌then◌else◌, inr, map,
}
use range_vec_kv.Base.Bytes.{Bytes, bytes, bytes_eq, bytes_lt}
use range_vec_kv.OrderedMap.{find, values, insert_or_assign}
use range_vec_kv.Status.{ok_status, unavailable, value, status}
use range_vec_kv.Document.{DocumentRecord, key_of, build_composite_key}
use range_vec_kv.Codec.{magic_header, to_proto, wal_message, encode_document_record}
use range_vec_kv.Codec.Frames.{encode_frames}
use range_vec_kv.WalStore.{Io}
use range_vec_kv.Durability.Files.{IsReadableDocument}
use range_vec_kv.Durability.Steps.{storable_document}
use range_vec_kv.Outbox.{
  Outbox, Services, open_outbox, recover_outbox, drain_once, finish_task, enqueue, index_record,
  embed, image_reference_for_record, first_reference,
}
use range_vec_kv.Outbox.Pending.{Saved, Call, enqueues, removes, drains, calls, recover-calls}
use range_vec_kv.Outbox.Drain.{attempts, drain_once-attempts, enqueue_lost}
use range_vec_kv.Examples.Format.{format, format_laws, serialize_document, serialize_wal_entry}
use range_vec_kv.Examples.Stores.{
  apple, banana, working_io, working_io-IsWorking, apple-IsStorable, banana-IsStorable,
}

-- Services whose state is the list of the keys that the index took, and whose index refuses "a".
abbrev picky : Services (List Bytes) ℕ
picky = record {
  embed_text = λ t w. (value (length t), w);
  embed_image = λ t w. (status (unavailable (bytes "no images")), w);
  upsert = λ r v w.
      if bytes_eq r.key (bytes "a")
      then (unavailable (bytes "refused"), w)
      else (ok_status, w ++ r.key ∷ []);
}

abbrev always_working : Bytes → Io
always_working k = working_io

apple-IsReadable : IsReadableDocument format apple
apple-IsReadable = storable_document format format_laws apple apple-IsStorable

banana-IsReadable : IsReadableDocument format banana
banana-IsReadable = storable_document format format_laws banana banana-IsStorable

abbrev queueing : List ((Bytes → Io) × Call format picky)
queueing =
    (always_working, enqueues apple)
    ∷ (always_working, enqueues banana)
    ∷ (always_working, drains)
    ∷ (always_working, removes (bytes "docs") (bytes "c"))
    ∷ []

recover-calls_example :
    let s = (calls format picky (open_outbox none, []) queueing).0 in
    ((recover_outbox format working_io (open_outbox s.file)).0 ≡ ok_status)
    × ((recover_outbox format working_io (open_outbox s.file)).1.pending ≡ s.pending)
recover-calls_example = recover-calls format picky working_io [] queueing working_io-IsWorking (
  ((λ k. working_io-IsWorking), apple-IsReadable),
  (
    ((λ k. working_io-IsWorking), banana-IsReadable),
    ((λ k. working_io-IsWorking), ((λ k. working_io-IsWorking), tt)),
  ),
)

abbrev two_waiting : Outbox
two_waiting = record (open_outbox none) {
  pending = (key_of apple, apple) ∷ (key_of banana, banana) ∷ [];
}

drain_once-attempts_example :
    let x = drain_once format picky always_working two_waiting [] in
    (x.0 ≡ ok_status)
    × (x.1.0.pending ≡ (attempts picky two_waiting.pending []).0)
    × (x.1.1 ≡ (attempts picky two_waiting.pending []).1)
unfolding bytes_lt build_composite_key
drain_once-attempts_example =
    drain_once-attempts format picky always_working two_waiting [] (λ k. working_io-IsWorking)
      ((refl, tt), (tt, tt))

-- One document waits, and its file holds it.
abbrev one_waiting : Outbox
one_waiting = record (open_outbox none) {
  pending = (key_of apple, apple) ∷ [];
  file = some (magic_header ++ encode_frames (map (encode_document_record format) (apple ∷ [])));
}

one_waiting-Saved : Saved format one_waiting
unfolding values
one_waiting-Saved = record {
  holds = inr refl;
  sorted = (tt, tt);
  filed = ((refl, apple-IsReadable), tt);
}

abbrev newer : DocumentRecord
newer = record apple { version = 4 }

newer-IsReadable : IsReadableDocument format newer
unfolding to_proto wal_message serialize_document serialize_wal_entry insert_or_assign bytes_eq
    bytes_lt
newer-IsReadable =
    storable_document format format_laws newer
      (record { sorted = ((refl, tt), (tt, tt)); document_fits = refl; entry_fits = refl })

-- Services whose index takes everything.
abbrev taking : Services (List Bytes) ℕ
taking = record picky { upsert = λ r v w. (ok_status, w ++ r.key ∷ []) }

enqueue_lost_example :
    let (st, w') = index_record taking apple [] in
    let with_newer =
      (finish_task format working_io
        (enqueue format working_io one_waiting newer).1
        (key_of newer)
        st).1 in
    let without = (finish_task format working_io one_waiting (key_of newer) st).1 in
    (with_newer.pending ≡ without.pending)
    × ((recover_outbox format working_io (open_outbox with_newer.file)).1.pending ≡ without.pending)
    × ((drain_once format taking always_working with_newer w').1.0.pending
        ≡ (drain_once format taking always_working without w').1.0.pending)
    × ((drain_once format taking always_working with_newer w').1.1
        ≡ (drain_once format taking always_working without w').1.1)
unfolding find bytes_eq build_composite_key index_record embed image_reference_for_record
    first_reference
enqueue_lost_example =
    enqueue_lost format taking working_io always_working one_waiting apple newer []
      working_io-IsWorking (λ k. working_io-IsWorking) newer-IsReadable one_waiting-Saved refl refl

-- The index takes "b" and refuses "a".
refused_stays : attempts picky two_waiting.pending [] ≡ ((key_of apple, apple) ∷ [], bytes "b" ∷ [])
unfolding attempts bytes_eq index_record embed image_reference_for_record first_reference find
refused_stays = refl
