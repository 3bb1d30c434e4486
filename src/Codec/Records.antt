-- ===== src/Codec/Records.antt =====
-- Documents and log entries survive EncodeDocumentRecord, EncodeWalEntry and their decoders.
use range_vec_kv.Base.{◌≡◌, ◌∙◌, ap, true, [], arith}
use range_vec_kv.Base.Bytes.{Bytes}
use range_vec_kv.OrderedMap.Sorted.{IsSorted}
use range_vec_kv.OrderedMap.Fold.{assign_all, assign_all_self}
use range_vec_kv.Status.{value}
use range_vec_kv.Document.{DocumentRecord}
use range_vec_kv.Codec.{
  Protobuf, ProtobufLaws, WalEntry, put_entry, delete_entry, to_proto, from_proto, wal_message,
  encode_document_record, decode_document_record, encode_wal_entry, decode_wal_entry,
}
use range_vec_kv.Codec.Frames.{FitsFrame}

-- The metadata of a document is a `std::map`, so its keys ascend.
pub from_proto-to_proto : (r : DocumentRecord) → IsSorted r.metadata → from_proto (to_proto r) ≡ r
unfolding from_proto to_proto
from_proto-to_proto r s =
    ap (λ m. record r { metadata = m })
      (ap (assign_all []) (assign_all_self r.metadata s) ∙ assign_all_self r.metadata s)

module _ (pb : Protobuf) (laws : ProtobufLaws pb) where
  -- A document that protobuf can represent.
  pub record IsStorable (r : DocumentRecord) : Type 0 where
    pub sorted : IsSorted r.metadata
    pub document_fits : laws.document_fits (to_proto r) ≡ true
    pub entry_fits : laws.wal_entry_fits (wal_message (put_entry r)) ≡ true

  pub decode_document_record-encode_document_record :
      (r : DocumentRecord)
      → IsStorable r
      → decode_document_record pb (encode_document_record pb r) ≡ value r
  unfolding decode_document_record encode_document_record
  decode_document_record-encode_document_record r s =
      rw
        (
          laws.parse_document-serialize_document (to_proto r) s.document_fits,
          decode_document_record,
        )
        (ap value (from_proto-to_proto r s.sorted))

  pub decode-encode_put :
      (r : DocumentRecord)
      → IsStorable r
      → decode_wal_entry pb (encode_wal_entry pb (put_entry r)) ≡ value (put_entry r)
  unfolding decode_wal_entry encode_wal_entry
  decode-encode_put r s =
      rw
        (
          laws.parse_wal_entry-serialize_wal_entry (wal_message (put_entry r)) s.entry_fits,
          decode_wal_entry,
        )
        (ap (λ d. value (put_entry d)) (from_proto-to_proto r s.sorted))

  pub decode-encode_delete :
      (c k : Bytes)
      → laws.wal_entry_fits (wal_message (delete_entry c k)) ≡ true
      → decode_wal_entry pb (encode_wal_entry pb (delete_entry c k)) ≡ value (delete_entry c k)
  unfolding decode_wal_entry encode_wal_entry
  decode-encode_delete c k s = rw (
    laws.parse_wal_entry-serialize_wal_entry (wal_message (delete_entry c k)) s,
    decode_wal_entry,
  )

  pub encode_document_record-FitsFrame :
      (r : DocumentRecord) → IsStorable r → FitsFrame (encode_document_record pb r)
  unfolding encode_document_record
  encode_document_record-FitsFrame r s =
      omega (arith, laws.length-serialize_document (to_proto r) s.document_fits)

  pub encode_wal_entry-FitsFrame :
      (e : WalEntry)
      → laws.wal_entry_fits (wal_message e) ≡ true
      → FitsFrame (encode_wal_entry pb e)
  unfolding encode_wal_entry
  encode_wal_entry-FitsFrame e s = omega (arith, laws.length-serialize_wal_entry (wal_message e) s)
