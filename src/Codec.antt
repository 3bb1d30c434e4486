-- ===== src/Codec.antt =====
-- src/core/persistence_codec.cpp: how documents and log entries become bytes on disk. A file is the
-- magic header and then frames: four length bytes, least significant first, and the payload.
-- The classes that protoc generates from proto/search.proto are not source code here: `Protobuf`
-- stands for their `SerializeAsString` and `ParseFromString`.
pub mod Frames
pub mod Records
pub mod Truncated
use range_vec_kv.Base.{
  ℕ, zero, suc, ◌≡◌, ◌<◌, true, ◌+◌, ◌*◌, ◌/◌, ◌%◌, ◌^◌, ltb, Bool, Option, none, some, List, [],
  ◌∷◌, ◌++◌, length, take, drop, if◌then◌else◌,
}
use range_vec_kv.Base.Bytes.{Bytes, bytes, bytes_eq}
use range_vec_kv.Base.Int.{ℤ}
use range_vec_kv.OrderedMap.{Map}
use range_vec_kv.OrderedMap.Fold.{assign_all}
use range_vec_kv.Status.{StatusOr, value, status, internal, invalid_argument}
use range_vec_kv.Document.{DocumentRecord}

-- kvai::v1::DocumentRecord. Its metadata is a protobuf map, whose iteration order is not specified;
-- the functions below copy it entry by entry into another map.
pub record ProtoDocument : Type 0 where
  pub collection : Bytes
  pub key : Bytes
  pub title : Bytes
  pub body : Bytes
  pub metadata : Map Bytes
  pub version : ℕ
  pub updated_at_unix_ms : ℤ
  pub mutation_id : Bytes

pub data ProtoWalOperation : Type 0 where
  wal_operation_unspecified wal_operation_put wal_operation_delete : ProtoWalOperation

-- kvai::v1::WalEntry
pub record ProtoWalEntry : Type 0 where
  pub operation : ProtoWalOperation
  pub document : ProtoDocument
  pub collection : Bytes
  pub key : Bytes

pub record Protobuf : Type 0 where
  pub serialize_document : ProtoDocument → Bytes
  pub parse_document : Bytes → Option ProtoDocument
  pub serialize_wal_entry : ProtoWalEntry → Bytes
  pub parse_wal_entry : Bytes → Option ProtoWalEntry

abbrev pub empty_proto : ProtoDocument
empty_proto = record {
  collection = [];
  key = [];
  title = [];
  body = [];
  metadata = [];
  version = 0;
  updated_at_unix_ms = ℤ.pos 0;
  mutation_id = [];
}

abbrev pub empty_record : DocumentRecord
empty_record = record {
  collection = [];
  key = [];
  title = [];
  body = [];
  metadata = [];
  version = 0;
  updated_at_unix_ms = ℤ.pos 0;
  mutation_id = [];
}

pub data WalOperation : Type 0 where
  put delete : WalOperation

pub record WalEntry : Type 0 where
  pub operation : WalOperation
  pub document : DocumentRecord
  pub collection : Bytes
  pub key : Bytes

-- The entries that the stores log.
abbrev pub put_entry : DocumentRecord → WalEntry
put_entry r = record { operation = put; document = r; collection = []; key = [] }

abbrev pub delete_entry : Bytes → Bytes → WalEntry
delete_entry collection key = record {
  operation = delete;
  document = empty_record;
  collection = collection;
  key = key;
}

-- ToProto(const DocumentRecord&)
unfoldable pub to_proto : DocumentRecord → ProtoDocument
unfolding assign_all
to_proto r = record {
  collection = r.collection;
  key = r.key;
  title = r.title;
  body = r.body;
  metadata = assign_all [] r.metadata;
  version = r.version;
  updated_at_unix_ms = r.updated_at_unix_ms;
  mutation_id = r.mutation_id;
}

-- FromProto(const kvai::v1::DocumentRecord&)
unfoldable pub from_proto : ProtoDocument → DocumentRecord
unfolding assign_all
from_proto p = record {
  collection = p.collection;
  key = p.key;
  title = p.title;
  body = p.body;
  metadata = assign_all [] p.metadata;
  version = p.version;
  updated_at_unix_ms = p.updated_at_unix_ms;
  mutation_id = p.mutation_id;
}

unfoldable pub to_proto_operation : WalOperation → ProtoWalOperation
to_proto_operation put = wal_operation_put
to_proto_operation delete = wal_operation_delete

unfoldable pub from_proto_operation : ProtoWalOperation → WalOperation
from_proto_operation wal_operation_delete = delete
from_proto_operation _ = put

abbrev pub magic_header : Bytes
magic_header = bytes "KVAI-PB1\n"

-- The message that EncodeWalEntry fills in.
unfoldable pub wal_message : WalEntry → ProtoWalEntry
unfolding to_proto to_proto_operation
wal_message e = elim e.operation [
  | put ↦ record {
    operation = to_proto_operation put;
    document = to_proto e.document;
    collection = [];
    key = [];
  }
  | delete ↦ record {
    operation = to_proto_operation delete;
    document = empty_proto;
    collection = e.collection;
    key = e.key;
  }
]

-- The entry that DecodeWalEntry reads off a message.
unfoldable pub wal_entry_of : ProtoWalEntry → WalEntry
unfolding from_proto from_proto_operation
wal_entry_of p = elim (from_proto_operation p.operation) [
  | put ↦ record { operation = put; document = from_proto p.document; collection = []; key = [] }
  | delete ↦ record {
    operation = delete;
    document = empty_record;
    collection = p.collection;
    key = p.key;
  }
]

-- `length >> shift & 0xFF` for one of the four length bytes.
abbrev pub length_byte : ℕ → ℕ → ℕ
length_byte n shift = n / 2 ^ shift % 256

unfoldable pub encode_frame : Bytes → Bytes
encode_frame payload =
    let n = length payload % 2 ^ 32 in
    length_byte n 0 ∷ length_byte n 8 ∷ length_byte n 16 ∷ length_byte n 24 ∷ payload

-- The four bytes of a length are disjoint, so the source's `|=` adds them.
abbrev pub frame_length : ℕ → ℕ → ℕ → ℕ → ℕ
frame_length a b c d = a % 256 + b % 256 * 2 ^ 8 + c % 256 * 2 ^ 16 + d % 256 * 2 ^ 24

-- What bytes.rfind(prefix, 0) == 0 asks.
unfoldable pub has_prefix : Bytes → Bytes → Bool
unfolding bytes_eq
has_prefix prefix text = bytes_eq (take (length prefix) text) prefix

-- The loop of DecodeFrames on the bytes from `offset` on. `none` means that the fuel ran out.
unfoldable pub decode_loop : ℕ → Bytes → List Bytes → Option (StatusOr (List Bytes))
decode_loop fuel [] frames = some (value frames)
decode_loop zero (b ∷ rest) frames = none
decode_loop (suc fuel) (a ∷ b ∷ c ∷ d ∷ rest) frames =
    let n = frame_length a b c d in
    let next = decode_loop fuel (drop n rest) (frames ++ take n rest ∷ []) in
    if ltb (length rest) n
    then some (status (internal (bytes "truncated protobuf persistence payload")))
    else next
decode_loop (suc fuel) (b ∷ rest) frames =
    some (status (internal (bytes "truncated protobuf persistence frame")))

abbrev pub or_no_frames : Option (StatusOr (List Bytes)) → StatusOr (List Bytes)
or_no_frames none = value []
or_no_frames (some r) = r

-- A round reads four bytes or more, so the length of the text is fuel enough.
unfoldable pub decode_frames : Bytes → StatusOr (List Bytes)
decode_frames text =
    if has_prefix magic_header text
    then (let body = drop (length magic_header) text in
        or_no_frames (decode_loop (length body) body []))
    else status (invalid_argument (bytes "missing protobuf persistence magic header"))

module _ (pb : Protobuf) where
  unfoldable pub encode_document_record : DocumentRecord → Bytes
  unfolding to_proto
  encode_document_record r = pb.serialize_document (to_proto r)

  unfoldable pub decode_document_record : Bytes → StatusOr DocumentRecord
  unfolding from_proto
  decode_document_record payload = elim (pb.parse_document payload) [
    | none ↦ status (internal (bytes "failed to parse protobuf DocumentRecord"))
    | some p ↦ value (from_proto p)
  ]

  unfoldable pub encode_wal_entry : WalEntry → Bytes
  unfolding wal_message
  encode_wal_entry e = pb.serialize_wal_entry (wal_message e)

  unfoldable pub decode_wal_entry : Bytes → StatusOr WalEntry
  unfolding wal_entry_of
  decode_wal_entry payload = elim (pb.parse_wal_entry payload) [
    | none ↦ status (internal (bytes "failed to parse protobuf WalEntry"))
    | some p ↦ value (wal_entry_of p)
  ]

-- What the protobuf documentation says of the two functions: a message within the limits (text
-- fields in UTF-8, below 2 GiB in all; `fits` is true) is parsed back from its serialization.
pub record ProtobufLaws (pb : Protobuf) : Type 0 where
  pub document_fits : ProtoDocument → Bool
  pub wal_entry_fits : ProtoWalEntry → Bool
  pub parse_document-serialize_document :
      (p : ProtoDocument)
      → document_fits p ≡ true
      → pb.parse_document (pb.serialize_document p) ≡ some p
  pub parse_wal_entry-serialize_wal_entry :
      (p : ProtoWalEntry)
      → wal_entry_fits p ≡ true
      → pb.parse_wal_entry (pb.serialize_wal_entry p) ≡ some p
  pub length-serialize_document :
      (p : ProtoDocument) → document_fits p ≡ true → length (pb.serialize_document p) < 2 ^ 31
  pub length-serialize_wal_entry :
      (p : ProtoWalEntry) → wal_entry_fits p ≡ true → length (pb.serialize_wal_entry p) < 2 ^ 31
