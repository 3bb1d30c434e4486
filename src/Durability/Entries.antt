-- ===== src/Durability/Entries.antt =====
-- The effect of a sequence of log entries on the documents, and why a log may be replayed over a
-- snapshot that was taken after some of its entries.
use range_vec_kv.Base.{
  ◌≡◌, refl, ap, sym, ◌∙◌, Option, none, some, List, [], ◌∷◌, ◌++◌, map, if◌then◌else◌, inl, inr,
  ◌⊎◌, Bool-cases,
}
use range_vec_kv.Base.Bytes.{Bytes, bytes_eq}
use range_vec_kv.OrderedMap.{Map, find, insert_or_assign, erase}
use range_vec_kv.OrderedMap.Laws.{find-insert_or_assign, find-erase}
use range_vec_kv.OrderedMap.Sorted.{IsSorted, insert_or_assign-IsSorted, erase-IsSorted, map_ext}
use range_vec_kv.Document.{DocumentRecord, build_composite_key, key_of}
use range_vec_kv.Codec.{WalEntry, WalOperation, put, delete, put_entry}
use range_vec_kv.WalStore.{apply_entry}

abbrev Documents : Type 0
Documents = Map DocumentRecord

unfoldable pub apply_entries : Documents → List WalEntry → Documents
apply_entries m [] = m
apply_entries m (e ∷ es) = apply_entries (apply_entry m e) es

unfoldable pub assign_records : Documents → List DocumentRecord → Documents
assign_records m [] = m
assign_records m (r ∷ rs) = assign_records (insert_or_assign (key_of r) r m) rs

pub apply_entries-append :
    (m : Documents) (es fs : List WalEntry)
    → apply_entries m (es ++ fs) ≡ apply_entries (apply_entries m es) fs
unfolding apply_entries
apply_entries-append m [] fs = refl
apply_entries-append m (e ∷ es) fs = apply_entries-append (apply_entry m e) es fs

pub assign_records-append :
    (m : Documents) (rs qs : List DocumentRecord)
    → assign_records m (rs ++ qs) ≡ assign_records (assign_records m rs) qs
unfolding assign_records
assign_records-append m [] qs = refl
assign_records-append m (r ∷ rs) qs = assign_records-append (insert_or_assign (key_of r) r m) rs qs

pub apply_entries-map_put :
    (m : Documents) (rs : List DocumentRecord)
    → apply_entries m (map put_entry rs) ≡ assign_records m rs
unfolding apply_entries assign_records apply_entry
apply_entries-map_put m [] = refl
apply_entries-map_put m (r ∷ rs) = apply_entries-map_put (insert_or_assign (key_of r) r m) rs

pub apply_entry-IsSorted : (m : Documents) (e : WalEntry) → IsSorted m → IsSorted (apply_entry m e)
unfolding apply_entry
apply_entry-IsSorted m e s = by_operation e.operation
  where
    by_operation :
        (o : WalOperation)
        → IsSorted (elim o [
          | put ↦ insert_or_assign (key_of e.document) e.document m
          | delete ↦ erase (build_composite_key e.collection e.key) m
        ])
    by_operation put = insert_or_assign-IsSorted (key_of e.document) e.document m s
    by_operation delete = erase-IsSorted (build_composite_key e.collection e.key) m s

pub apply_entries-IsSorted :
    (m : Documents) (es : List WalEntry) → IsSorted m → IsSorted (apply_entries m es)
unfolding apply_entries
apply_entries-IsSorted m [] s = s
apply_entries-IsSorted m (e ∷ es) s =
    apply_entries-IsSorted (apply_entry m e) es (apply_entry-IsSorted m e s)

pub assign_records-IsSorted :
    (m : Documents) (rs : List DocumentRecord) → IsSorted m → IsSorted (assign_records m rs)
unfolding assign_records
assign_records-IsSorted m [] s = s
assign_records-IsSorted m (r ∷ rs) s =
    assign_records-IsSorted (insert_or_assign (key_of r) r m) rs
      (insert_or_assign-IsSorted (key_of r) r m s)

-- The key that an entry is about, and what it leaves there.
entry_key : WalEntry → Bytes
entry_key e = elim e.operation [
  | put ↦ key_of e.document
  | delete ↦ build_composite_key e.collection e.key
]

outcome : WalEntry → Option DocumentRecord
outcome e = elim e.operation [ put ↦ some e.document | delete ↦ none ]

-- What one entry makes of the value at a key.
effect : WalEntry → Bytes → Option DocumentRecord → Option DocumentRecord
effect e k old = if bytes_eq k (entry_key e) then outcome e else old

last_write : Bytes → List WalEntry → Option DocumentRecord → Option DocumentRecord
unfolding effect
last_write k [] old = old
last_write k (e ∷ es) old = last_write k es (effect e k old)

find-apply_entry :
    (k : Bytes) (m : Documents) (e : WalEntry) → find k (apply_entry m e) ≡ effect e k (find k m)
unfolding apply_entry effect entry_key outcome
find-apply_entry k m e = by_operation e.operation
  where
    by_operation :
        (o : WalOperation)
        → find k (elim o [
          | put ↦ insert_or_assign (key_of e.document) e.document m
          | delete ↦ erase (build_composite_key e.collection e.key) m
        ])
          ≡ (if bytes_eq k (elim o [
            | put ↦ key_of e.document
            | delete ↦ build_composite_key e.collection e.key
          ])
              then elim o [ put ↦ some e.document | delete ↦ none ]
              else find k m)
    by_operation put = find-insert_or_assign k (key_of e.document) e.document m
    by_operation delete = find-erase k (build_composite_key e.collection e.key) m

find-apply_entries :
    (k : Bytes) (m : Documents) (es : List WalEntry)
    → find k (apply_entries m es) ≡ last_write k es (find k m)
unfolding apply_entries last_write
find-apply_entries k m [] = refl
find-apply_entries k m (e ∷ es) =
    find-apply_entries k (apply_entry m e) es ∙ ap (last_write k es) (find-apply_entry k m e)

-- An entry either leaves a key alone, or decides its value.
KeepsOrDecides : (Option DocumentRecord → Option DocumentRecord) → Type 0
KeepsOrDecides f =
    ((o : Option DocumentRecord) → f o ≡ o) ⊎ ((o p : Option DocumentRecord) → f o ≡ f p)

effect-KeepsOrDecides : (e : WalEntry) (k : Bytes) → KeepsOrDecides (effect e k)
unfolding KeepsOrDecides effect
effect-KeepsOrDecides e k = elim (Bool-cases (bytes_eq k (entry_key e))) [
  | inl hit ↦ inr (λ o p. rw (hit, effect))
  | inr miss ↦ inl (λ o. rw (miss, effect))
]

last_write-KeepsOrDecides : (k : Bytes) (es : List WalEntry) → KeepsOrDecides (last_write k es)
unfolding KeepsOrDecides last_write
last_write-KeepsOrDecides k [] = inl (λ o. refl)
last_write-KeepsOrDecides k (e ∷ es) = elim (last_write-KeepsOrDecides k es) [
  | inr decided ↦ inr (λ o p. decided (effect e k o) (effect e k p))
  | inl kept ↦ elim (effect-KeepsOrDecides e k) [
    | inl same ↦ inl (λ o. kept (effect e k o) ∙ same o)
    | inr decided ↦ inr (λ o p. ap (last_write k es) (decided o p))
  ]
]

last_write_idem :
    (k : Bytes) (es : List WalEntry) (o : Option DocumentRecord)
    → last_write k es (last_write k es o) ≡ last_write k es o
unfolding KeepsOrDecides
last_write_idem k es o = elim (last_write-KeepsOrDecides k es) [
  | inl kept ↦ kept (last_write k es o)
  | inr decided ↦ decided (last_write k es o) o
]

-- Replaying a log over documents that have its entries already changes nothing.
pub apply_entries_idem :
    (m : Documents) (es : List WalEntry)
    → IsSorted m
    → apply_entries (apply_entries m es) es ≡ apply_entries m es
apply_entries_idem m es s =
    map_ext (apply_entries (apply_entries m es) es) (apply_entries m es)
      (apply_entries-IsSorted (apply_entries m es) es (apply_entries-IsSorted m es s))
      (apply_entries-IsSorted m es s)
      (λ k.
        find-apply_entries k (apply_entries m es) es
        ∙ ap (last_write k es) (find-apply_entries k m es)
        ∙ last_write_idem k es (find k m)
        ∙ sym (find-apply_entries k m es))
