-- ===== src/RocksStore/Visible.antt =====
-- What a Put of the RocksDB store that answers ok makes visible.
use range_vec_kv.Base.{
  ◌≡◌, refl, Bool, true, false, none, some, ◌⊎◌, inl, inr, ◌++◌, Bool-cases, arith, if◌then◌else◌,
  ◌&&◌, not, Option,
}
use range_vec_kv.Base.Bytes.{Bytes, bytes, bytes_eq_refl}
use range_vec_kv.OrderedMap.{Map}
use range_vec_kv.OrderedMap.Laws.{find-insert_or_assign}
use range_vec_kv.Status.{
  Status, StatusOr, value, status, internal, unavailable, is_ok, Try, returned, raised,
}
use range_vec_kv.Document.{DocumentRecord}
use range_vec_kv.Document.Mutation.{is_duplicate_mutation, validate_mutation, is_empty}
use range_vec_kv.Codec.{Protobuf, encode_document_record, decode_document_record}
use range_vec_kv.Durability.Files.{IsReadableDocument}
use range_vec_kv.Legacy.{deserialize_record}
use range_vec_kv.Legacy.Refusal.{Refuses, deserialize_record-Refuses}
use range_vec_kv.RocksStore.{
  RocksDb, RocksStore, Answer, found, missing, broken, rocks_put, put_in_family, rocks_get,
  put_checked, check_stored, check_existing, decode_stored_record, get_or_create_column_family,
  has_column_family, written_status, read_answer,
}

-- What RocksDB documents of its writes: a value that was put is found under its key.
pub record RocksLaws {World : Type 0} (rocks : RocksDb World) : Type 0 where
  pub get-put :
      (c k v : Bytes) (w w' : World) → rocks.put c k v w ≡ (none, w') → rocks.get w' c k ≡ found v

-- The status of a call that returned, if it is ok.
abbrev pub AnswersOk : Try Status → Type 0
AnswersOk raised = ⊥
AnswersOk (returned st) = is_ok st ≡ true

module _ {World : Type 0} (pb : Protobuf) (rocks : RocksDb World) (laws : RocksLaws rocks) where
  failed : (st : Status) → is_ok st ≡ false → is_ok st ≡ true → ⊥
  failed st e o = cc

  -- Get gives the document, or one that has its mutation already.
  abbrev pub Shows : RocksStore World → DocumentRecord → Type 0
  Shows s r =
      (e : DocumentRecord) × (rocks_get pb rocks s r.collection r.key ≡ returned (value e))
      × ((e ≡ r) ⊎ (is_duplicate_mutation e r ≡ true))

  decode_stored_record-Refuses : (text : Bytes) → Refuses (decode_stored_record pb rocks text)
  unfolding decode_stored_record
  decode_stored_record-Refuses text = by_message (decode_document_record pb text)
    where
      by_message :
          (x : StatusOr DocumentRecord)
          → Refuses (elim x [
            | status st ↦ deserialize_record text
            | value r ↦
                if not (is_empty r.collection) && not (is_empty r.key)
                then returned (value r)
                else deserialize_record text
          ])
      by_message (status st) = deserialize_record-Refuses text
      by_message (value r) =
          elim (Bool-cases (not (is_empty r.collection) && not (is_empty r.key))) [
            | inl e ↦ rw e tt
            | inr e ↦ rw e (deserialize_record-Refuses text)
          ]

  -- A document with a collection and a key is read back from what a Put writes.
  decode_stored_record_lem :
      (r : DocumentRecord)
      → IsReadableDocument pb r
      → is_empty r.collection ≡ false
      → is_empty r.key ≡ false
      → decode_stored_record pb rocks (encode_document_record pb r) ≡ returned (value r)
  unfolding decode_stored_record
  decode_stored_record_lem r d f g = rw (d.decodes, decode_stored_record, f, g) refl

  rocks_get_found :
      (s : RocksStore World) (w : World) (c k text : Bytes) (e : DocumentRecord)
      → s.db ≡ some w
      → has_column_family pb rocks s c ≡ true
      → rocks.get w c k ≡ found text
      → decode_stored_record pb rocks text ≡ returned (value e)
      → rocks_get pb rocks s c k ≡ returned (value e)
  unfolding rocks_get read_answer
  rocks_get_found s w c k text e d h g v = rw (d, rocks_get, h, g) v

  module _ (s : RocksStore World) (r : DocumentRecord)
      (family : has_column_family pb rocks s r.collection ≡ true)
      (readable : IsReadableDocument pb r) (named : is_empty r.collection ≡ false)
      (keyed : is_empty r.key ≡ false) where
    family_in :
        (w : World) → has_column_family pb rocks (record s { db = some w }) r.collection ≡ true
    unfolding has_column_family
    family_in w = family

    put_new :
        (w : World)
        → AnswersOk (put_checked pb rocks s w r (returned (value false))).0
        → Shows (put_checked pb rocks s w r (returned (value false))).1 r
    unfolding put_checked written_status
    put_new w ok = by_status (rocks.put r.collection r.key (encode_document_record pb r) w) refl ok
      where
        by_status :
            (x : Option Bytes × World)
            → rocks.put r.collection r.key (encode_document_record pb r) w ≡ x
            → is_ok (written_status pb rocks (bytes "rocksdb put failed: ") x.0) ≡ true
            → Shows (record s { db = some x.1 }) r
        by_status (none, w') p o = (
          r,
          rocks_get_found (record s { db = some w' }) w' r.collection r.key _ r refl (family_in w')
              (laws.get-put r.collection r.key _ w w' p)
              (decode_stored_record_lem r readable named keyed),
          inl refl,
        )
        by_status (some e, w') p o =
            absurd (failed (internal (bytes "rocksdb put failed: " ++ e)) refl o)

    -- What the read before the write may have answered on a store in the state `w`.
    Known : World → Try (StatusOr Bool) → Type 0
    Known w raised = Unit
    Known w (returned (status st)) = is_ok st ≡ false
    Known w (returned (value false)) = Unit
    Known w (returned (value true)) =
        (e : DocumentRecord) × (rocks_get pb rocks (record s { db = some w }) r.collection r.key
          ≡ returned (value e))
        × (is_duplicate_mutation e r ≡ true)

    put_checked-Shows :
        (w : World) (x : Try (StatusOr Bool))
        → Known w x
        → AnswersOk (put_checked pb rocks s w r x).0
        → Shows (put_checked pb rocks s w r x).1 r
    unfolding put_checked Known
    put_checked-Shows w raised n ok = absurd ok
    put_checked-Shows w (returned (status st)) n ok = absurd (failed st n ok)
    put_checked-Shows w (returned (value true)) (e, g, d) ok = (e, g, inr d)
    put_checked-Shows w (returned (value false)) n ok = put_new w ok

    check_existing-Known :
        (w : World) (e : DocumentRecord)
        → (rocks_get pb rocks (record s { db = some w }) r.collection r.key ≡ returned (value e))
        → Known w (returned (check_existing pb rocks e r))
    unfolding Known check_existing
    check_existing-Known w e g = elim (Bool-cases (is_ok (validate_mutation e r))) [
      | inr v ↦ rw v v
      | inl v ↦ elim (Bool-cases (is_duplicate_mutation e r)) [
        | inl d ↦ rw (v, d) (e, g, d)
        | inr d ↦ rw (v, d) tt
      ]
    ]

    check_stored-Known :
        (w : World) (what : Bytes)
        → Known w (check_stored pb rocks what (rocks.get w r.collection r.key) r)
    unfolding Known check_stored
    check_stored-Known w what = by_answer (rocks.get w r.collection r.key) refl
      where
        by_record :
            (text : Bytes) (x : Try (StatusOr DocumentRecord))
            → rocks.get w r.collection r.key ≡ found text
            → decode_stored_record pb rocks text ≡ x
            → Refuses x
            → Known w (elim x [
              | raised ↦ raised
              | returned (status st) ↦ returned (status st)
              | returned (value existing) ↦ returned (check_existing pb rocks existing r)
            ])
        by_record text raised g d n = tt
        by_record text (returned (status st)) g d n = n
        by_record text (returned (value e)) g d n = check_existing-Known w e (
            rocks_get_found (record s { db = some w }) w r.collection r.key text e refl
              (family_in w) g d)

        by_answer :
            (a : Answer)
            → rocks.get w r.collection r.key ≡ a
            → Known w (check_stored pb rocks what a r)
        by_answer missing g = tt
        by_answer (broken e) g = refl
        by_answer (found text) g =
            by_record text (decode_stored_record pb rocks text) g refl
              (decode_stored_record-Refuses text)

  get_or_create_column_family_lem :
      (s : RocksStore World) (w : World) (c : Bytes) (d : Option World)
      → (get_or_create_column_family pb rocks s w c).0 ≡ true
      → has_column_family pb rocks
          (record { db = d; column_families = (get_or_create_column_family pb rocks s w c).1.0 })
          c
        ≡ true
  unfolding get_or_create_column_family has_column_family
  get_or_create_column_family_lem s w c d h =
      ground (arith, find-insert_or_assign c c tt s.column_families, bytes_eq_refl c)

  -- After a Put that answers ok, Get gives the document, or one that has its mutation id already: a
  -- Put whose document has the mutation id of the stored one changes nothing. (The document has
  -- a collection and a key and is read back as it was written.)
  pub rocks_put-Shows :
      (s : RocksStore World) (r : DocumentRecord)
      → IsReadableDocument pb r
      → is_empty r.collection ≡ false
      → is_empty r.key ≡ false
      → AnswersOk (rocks_put pb rocks s r).0
      → Shows (rocks_put pb rocks s r).1 r
  unfolding rocks_put put_in_family
  rocks_put-Shows s r d f g = by_db s.db
    where
      at : Map {0} Unit → World → RocksStore World
      at families w = record { db = some w; column_families = families }

      by_family :
          (x : Bool × (Map {0} Unit × World))
          → (x.0 ≡ true
              → has_column_family pb rocks
                  (record { db = some x.1.1; column_families = x.1.0 })
                  r.collection
                ≡ true)
          → AnswersOk (put_in_family pb rocks r x).0
          → Shows (put_in_family pb rocks r x).1 r
      by_family (false, (families, w)) h ok = absurd (cc)
      by_family (true, (families, w)) h ok =
          put_checked-Shows (at families w) r (h refl) d f g w
            (check_stored pb rocks (bytes "rocksdb get-before-put failed: ")
              (rocks.get w r.collection r.key) r)
            (check_stored-Known (at families w) r (h refl) d f g w
              (bytes "rocksdb get-before-put failed: "))
            ok

      by_db :
          (o : Option World)
          → AnswersOk
              (elim o as (λ o'. Try Status × RocksStore World) [
                | none ↦ (returned (unavailable (bytes "rocksdb store not initialized")), s)
                | some w ↦
                    put_in_family pb rocks r (get_or_create_column_family pb rocks s w r.collection)
              ]).0
          → Shows
              (elim o as (λ o'. Try Status × RocksStore World) [
                | none ↦ (returned (unavailable (bytes "rocksdb store not initialized")), s)
                | some w ↦
                    put_in_family pb rocks r (get_or_create_column_family pb rocks s w r.collection)
              ]).1
              r
      by_db none ok = absurd (cc)
      by_db (some w) ok =
          by_family (get_or_create_column_family pb rocks s w r.collection)
            (get_or_create_column_family_lem s w r.collection
              (some (get_or_create_column_family pb rocks s w r.collection).1.1))
            ok
