-- ===== src/Examples/Format.antt =====
-- A serialization that has the properties which `ProtobufLaws` asks of protobuf: every text behind
-- its length, and a number for each constructor.
use range_vec_kv.Base.{
  ℕ, zero, suc, ◌≡◌, refl, ◌^◌, ltb, ltb→lt, Option, none, some, [], ◌∷◌, ◌++◌, length, take, drop,
  take-append, drop-append,
}
use range_vec_kv.Base.Bytes.{Bytes}
use range_vec_kv.Base.Int.{ℤ}
use range_vec_kv.OrderedMap.{Map}
use range_vec_kv.Codec.{
  Protobuf, ProtobufLaws, ProtoDocument, ProtoWalEntry, ProtoWalOperation,
  wal_operation_unspecified, wal_operation_put, wal_operation_delete,
}

infixl 5 ◌>>=◌
abbrev ◌>>=◌ {ℓ κ} : {A : Type ℓ} {B : Type κ} → Option A → (A → Option B) → Option B
none >>= f = none
some a >>= f = f a

print_text : Bytes → Bytes → Bytes
print_text b rest = length b ∷ (b ++ rest)

read_text : Bytes → Option (Bytes × Bytes)
read_text [] = none
read_text (n ∷ rest) = some (take n rest, drop n rest)

read_text-print_text : (b rest : Bytes) → read_text (print_text b rest) ≡ some (b, rest)
unfolding read_text print_text
read_text-print_text b rest = rw (take-append b rest, drop-append b rest)

print_pairs : Map Bytes → Bytes → Bytes
print_pairs [] rest = rest
print_pairs ((k, v) ∷ m) rest = print_text k (print_text v (print_pairs m rest))

read_pairs : ℕ → Bytes → Option (Map Bytes × Bytes)
read_pairs zero text = some ([], text)
read_pairs (suc n) text = do
  (k, text₁) ← read_text text
  (v, text₂) ← read_text text₁
  (m, text₃) ← read_pairs n text₂
  some ((k, v) ∷ m, text₃)

read_pairs-print_pairs :
    (m : Map Bytes) (rest : Bytes) → read_pairs (length m) (print_pairs m rest) ≡ some (m, rest)
unfolding read_pairs print_pairs
read_pairs-print_pairs [] rest = refl
read_pairs-print_pairs ((k, v) ∷ m) rest =
    simp (read_text-print_text, read_pairs-print_pairs m rest)

print_integer : ℤ → Bytes → Bytes
print_integer (ℤ.pos n) rest = 0 ∷ n ∷ rest
print_integer (ℤ.negsuc n) rest = 1 ∷ n ∷ rest

read_integer : Bytes → Option (ℤ × Bytes)
read_integer (zero ∷ n ∷ rest) = some (ℤ.pos n, rest)
read_integer (suc zero ∷ n ∷ rest) = some (ℤ.negsuc n, rest)
read_integer _ = none

read_integer-print_integer :
    (z : ℤ) (rest : Bytes) → read_integer (print_integer z rest) ≡ some (z, rest)
unfolding read_integer print_integer
read_integer-print_integer (ℤ.pos n) rest = refl
read_integer-print_integer (ℤ.negsuc n) rest = refl

print_document : ProtoDocument → Bytes → Bytes
print_document p rest = print_text p.collection (
    print_text p.key (
      print_text p.title (
        print_text p.body (
          length p.metadata
          ∷ print_pairs p.metadata
              (p.version ∷ print_integer p.updated_at_unix_ms (print_text p.mutation_id rest))))))

read_number : Bytes → Option (ℕ × Bytes)
read_number [] = none
read_number (n ∷ rest) = some (n, rest)

read_document : Bytes → Option (ProtoDocument × Bytes)
unfolding read_number
read_document text = do
  (collection, t₁) ← read_text text
  (key, t₂) ← read_text t₁
  (title, t₃) ← read_text t₂
  (body, t₄) ← read_text t₃
  (count, t₅) ← read_number t₄
  (metadata, t₆) ← read_pairs count t₅
  (version, t₇) ← read_number t₆
  (updated, t₈) ← read_integer t₇
  (mutation_id, t₉) ← read_text t₈
  some (
    record {
      collection = collection;
      key = key;
      title = title;
      body = body;
      metadata = metadata;
      version = version;
      updated_at_unix_ms = updated;
      mutation_id = mutation_id;
    },
    t₉,
  )

read_document-print_document :
    (p : ProtoDocument) (rest : Bytes) → read_document (print_document p rest) ≡ some (p, rest)
unfolding read_document print_document
read_document-print_document p rest =
    simp (read_text-print_text, read_pairs-print_pairs, read_integer-print_integer)

print_operation : ProtoWalOperation → ℕ
print_operation wal_operation_unspecified = 0
print_operation wal_operation_put = 1
print_operation wal_operation_delete = 2

read_operation : ℕ → ProtoWalOperation
read_operation zero = wal_operation_unspecified
read_operation (suc zero) = wal_operation_put
read_operation (suc (suc n)) = wal_operation_delete

read_operation-print_operation : (o : ProtoWalOperation) → read_operation (print_operation o) ≡ o
unfolding read_operation print_operation
read_operation-print_operation wal_operation_unspecified = refl
read_operation-print_operation wal_operation_put = refl
read_operation-print_operation wal_operation_delete = refl

print_entry : ProtoWalEntry → Bytes
print_entry e =
    print_operation e.operation
    ∷ print_document e.document (print_text e.collection (print_text e.key []))

read_entry : Bytes → Option ProtoWalEntry
unfolding read_number
read_entry text = do
  (operation, t₁) ← read_number text
  (document, t₂) ← read_document t₁
  (collection, t₃) ← read_text t₂
  (key, t₄) ← read_text t₃
  some (record {
    operation = read_operation operation;
    document = document;
    collection = collection;
    key = key;
  })

read_entry-print_entry : (e : ProtoWalEntry) → read_entry (print_entry e) ≡ some e
unfolding read_entry print_entry
read_entry-print_entry e =
    simp (read_document-print_document, read_text-print_text, read_operation-print_operation)

unfoldable pub parse_document : Bytes → Option ProtoDocument
unfolding read_document read_text read_pairs read_integer
parse_document text = do (p, rest) ← read_document text; some p

unfoldable pub serialize_document : ProtoDocument → Bytes
unfolding print_document print_text print_pairs print_integer
serialize_document p = print_document p []

unfoldable pub parse_wal_entry : Bytes → Option ProtoWalEntry
unfolding read_entry read_document read_text read_pairs read_integer read_operation
parse_wal_entry text = read_entry text

unfoldable pub serialize_wal_entry : ProtoWalEntry → Bytes
unfolding print_entry print_operation print_document print_text print_pairs print_integer
serialize_wal_entry e = print_entry e

abbrev pub format : Protobuf
format = record {
  serialize_document = serialize_document;
  parse_document = parse_document;
  serialize_wal_entry = serialize_wal_entry;
  parse_wal_entry = parse_wal_entry;
}

pub parse-serialize_document : (p : ProtoDocument) → parse_document (serialize_document p) ≡ some p
unfolding parse_document serialize_document
parse-serialize_document p = rw (read_document-print_document p [])

pub parse-serialize_wal_entry :
    (e : ProtoWalEntry) → parse_wal_entry (serialize_wal_entry e) ≡ some e
unfolding parse_wal_entry serialize_wal_entry
parse-serialize_wal_entry e = read_entry-print_entry e

abbrev pub format_laws : ProtobufLaws format
format_laws = record {
  document_fits = λ p. ltb (length (serialize_document p)) (2 ^ 31);
  wal_entry_fits = λ e. ltb (length (serialize_wal_entry e)) (2 ^ 31);
  parse_document-serialize_document = λ p h. parse-serialize_document p;
  parse_wal_entry-serialize_wal_entry = λ e h. parse-serialize_wal_entry e;
  length-serialize_document = λ p h. ltb→lt (length (serialize_document p)) (2 ^ 31) h;
  length-serialize_wal_entry = λ e h. ltb→lt (length (serialize_wal_entry e)) (2 ^ 31) h;
}
