-- ===== src/Mutations/Puts.antt =====
-- Put: what it stores, what it leaves alone, and versions that do not go back.
use range_vec_kv.Base.{
  ◌≡◌, ◌≢◌, ◌≤◌, refl, ap, ◌∙◌, true, false, none, some, Option-cases, Bool-cases, inl, inr, List,
  [], ◌∷◌, All, arith, if◌then◌else◌,
}
use range_vec_kv.Base.Bytes.{Bytes, bytes_eq}
use range_vec_kv.OrderedMap.{Map, find, insert_or_assign}
use range_vec_kv.OrderedMap.Laws.{find-insert_or_assign, find-congr}
use range_vec_kv.Status.{Status, is_ok, ok_status}
use range_vec_kv.Document.{DocumentRecord, key_of}
use range_vec_kv.Document.Mutation.{
  validate_mutation, is_duplicate_mutation, validate_mutation-is_ok,
}
use range_vec_kv.Codec.{Protobuf}
use range_vec_kv.WalStore.{Io, WalStore, put_record, store_record}

module _ (pb : Protobuf) (io : Io) where
  -- Put either stores the document, or answers without touching the store: ok for a repeated
  -- mutation of what is stored, and the refusal of ValidateMutation otherwise.
  pub data Outcome (s : WalStore) (r : DocumentRecord) : Status × WalStore → Type 0 where
    fresh : find (key_of r) s.records ≡ none → Outcome s r (store_record pb io s r)
    replaces :
        (old : DocumentRecord)
        → find (key_of r) s.records ≡ some old
        → is_duplicate_mutation old r ≡ false
        → is_ok (validate_mutation old r) ≡ true
        → Outcome s r (store_record pb io s r)
    repeats :
        (old : DocumentRecord)
        → find (key_of r) s.records ≡ some old
        → is_duplicate_mutation old r ≡ true
        → Outcome s r (ok_status, s)
    refused :
        (old : DocumentRecord)
        → find (key_of r) s.records ≡ some old
        → is_ok (validate_mutation old r) ≡ false
        → Outcome s r (validate_mutation old r, s)

  pub put_record-Outcome : (s : WalStore) (r : DocumentRecord) → Outcome s r (put_record pb io s r)
  unfolding put_record
  put_record-Outcome s r = elim (Option-cases (find (key_of r) s.records)) [
    | inl e ↦ rw (e, put_record) (fresh e)
    | inr (x, e) ↦
        rw (e, put_record)
          (elim (Bool-cases (is_ok (validate_mutation x r))) [
            | inl v ↦ rw v (elim (Bool-cases (is_duplicate_mutation x r)) [
              | inl dup ↦ rw dup (repeats x e dup)
              | inr new ↦ rw new (replaces x e new v)
            ])
            | inr v ↦ rw v (refused x e v)
          ])
  ]

  pub records-store_record :
      (s : WalStore) (r : DocumentRecord)
      → (store_record pb io s r).1.records ≡ insert_or_assign (key_of r) r s.records
  unfolding store_record
  records-store_record s r = refl

  pub find-store_record :
      (s : WalStore) (r : DocumentRecord) (k : Bytes)
      → find k (store_record pb io s r).1.records
        ≡ (if bytes_eq k (key_of r) then some r else find k s.records)
  find-store_record s r k =
      rw (records-store_record s r) (find-insert_or_assign k (key_of r) r s.records)

  -- Whatever Put does, documents under other keys stay as they are.
  pub find-put_record_other :
      (s : WalStore) (r : DocumentRecord) (k : Bytes)
      → bytes_eq k (key_of r) ≡ false
      → find k (put_record pb io s r).1.records ≡ find k s.records
  find-put_record_other s r k ne = by_outcome (put_record-Outcome s r)
    where
      by_outcome : {x : Status × WalStore} → Outcome s r x → find k x.1.records ≡ find k s.records
      by_outcome (fresh e) = ground (arith, find-store_record s r k)
      by_outcome (replaces old e new v) = ground (arith, find-store_record s r k)
      by_outcome (repeats old e dup) = refl
      by_outcome (refused old e v) = refl

  -- The second document has a version, and one that is not lower than the first one's.
  abbrev pub NotOlder : DocumentRecord → DocumentRecord → Type 0
  NotOlder e e' = (e'.version ≢ 0) × (e.version ≤ e'.version)

  stored_version :
      (s : WalStore) (r e : DocumentRecord) (k : Bytes)
      → ((bytes_eq k (key_of r) ≡ true) → NotOlder e r)
      → find k s.records ≡ some e
      → e.version ≢ 0
      → (e' : DocumentRecord) × (find k (store_record pb io s r).1.records ≡ some e')
        × NotOlder e e'
  stored_version s r e k newer at n = elim (Bool-cases (bytes_eq k (key_of r))) [
    | inl q ↦ (r, find-store_record s r k ∙ (rw q), newer q)
    | inr q ↦ (e, find-store_record s r k ∙ (rw q at'), (n, omega arith))
  ]
    where
      at' : find k s.records ≡ some e
      at' = at

  same_entry :
      (m : Map DocumentRecord) (k j : Bytes) {e old : DocumentRecord}
      → bytes_eq k j ≡ true
      → find k m ≡ some e
      → find j m ≡ some old
      → old ≡ e
  same_entry m k j q at there = ground (arith, find-congr k j m)

  -- Where the stored document and the incoming one both have a version, Put leaves a document at
  -- that key whose version is set and is not lower, whatever happens to the files.
  pub put_record-version :
      (s : WalStore) (r e : DocumentRecord) (k : Bytes)
      → r.version ≢ 0
      → e.version ≢ 0
      → find k s.records ≡ some e
      → (e' : DocumentRecord) × (find k (put_record pb io s r).1.records ≡ some e') × NotOlder e e'
  put_record-version s r e k rn en at = by_outcome (put_record-Outcome s r)
    where
      Kept : Status × WalStore → Type 0
      Kept x = (e' : DocumentRecord) × (find k x.1.records ≡ some e') × NotOlder e e'

      newer :
          (old : DocumentRecord)
          → old ≡ e
          → is_duplicate_mutation old r ≡ false
          → is_ok (validate_mutation old r) ≡ true
          → NotOlder e r
      newer old q new v =
          (rn, omega (arith, validate_mutation-is_ok old r new v, ap (λ d. d.version) q))

      by_outcome : {x : Status × WalStore} → Outcome s r x → Kept x
      by_outcome (fresh missing) =
          stored_version s r e k (λ q. absurd (ground (arith, find-congr k (key_of r) s.records)))
            at en
      by_outcome (replaces old there new v) =
          stored_version s r e k
            (λ q. newer old (same_entry s.records k (key_of r) q at there) new v) at en
      by_outcome (repeats old there dup) = (e, at, (en, omega arith))
      by_outcome (refused old there v) = (e, at, (en, omega arith))

  -- Put, one after the other.
  unfoldable pub put_all : WalStore → List DocumentRecord → WalStore
  put_all s [] = s
  put_all s (r ∷ rs) = put_all (put_record pb io s r).1 rs

  -- Over any sequence of Puts of documents with a version, the version that is stored at a key
  -- whose stored document has a version never goes back, and a document stays there, whatever happens
  -- to the files.
  pub put_all-version :
      (s : WalStore) (rs : List DocumentRecord) (e : DocumentRecord) (k : Bytes)
      → All (λ r. r.version ≢ 0) rs
      → e.version ≢ 0
      → find k s.records ≡ some e
      → (e' : DocumentRecord) × (find k (put_all s rs).records ≡ some e') × NotOlder e e'
  unfolding put_all
  put_all-version s [] e k h n at = (e, at, (n, omega arith))
  put_all-version s (r ∷ rs) e k h n at =
      let (e₁, at₁, (n₁, le₁)) = put_record-version s r e k h.0 n at in
      let (e₂, at₂, (n₂, le₂)) = put_all-version (put_record pb io s r).1 rs e₁ k h.1 n₁ at₁ in
      (e₂, at₂, (n₂, omega (arith, le₁, le₂)))
