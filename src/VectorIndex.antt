-- ===== src/VectorIndex.antt =====
-- src/search/vector_index.cpp, PersistentVectorIndex: entries of a document and a vector, a search that
-- compares a query with all of them, and a snapshot file. Floating-point arithmetic, std::stof and
-- std::sort are the parameter `Library`, the classes that protoc generates the parameter `EntryFormat`.

pub mod Ranked
pub mod Snapshot
use range_vec_kv.Base.{
  ℕ, ltb, ◌==◌, not, ◌||◌, Bool, true, false, Option, none, some, List, [], ◌∷◌, ◌++◌, map, take,
  length, if◌then◌else◌,
}
use range_vec_kv.Base.Bytes.{Bytes, bytes, bytes_eq}
use range_vec_kv.Base.Int.{ℤ}
use range_vec_kv.OrderedMap.{Map, find, insert_or_assign, erase, values}
use range_vec_kv.Status.{
  Status, StatusOr, value, status, ok_status, is_ok, internal, invalid_argument, Try, returned,
  raised,
}
use range_vec_kv.Document.{DocumentRecord, build_composite_key, key_of}
use range_vec_kv.Document.Mutation.{is_empty}
use range_vec_kv.Codec.{ProtoDocument, to_proto, from_proto, magic_header, decode_frames}
use range_vec_kv.Codec.Frames.{encode_frames}
use range_vec_kv.Legacy.{unescape, split_escaped, deserialize_metadata, lines}
use range_vec_kv.Routing.Nodes.{tokens_loop}
use range_vec_kv.WalStore.{Io, read_whole_file, has_persistence_magic}

pub record SearchFilter : Type 0 where
  pub field : Bytes
  pub expected : Bytes

pub record SearchReference (Double : Type 0) : Type 0 where
  pub collection : Bytes
  pub key : Bytes
  pub score : Double
  pub metadata : Map Bytes

-- Operations of the language and its library on `float` and `double`, and std::sort of references.
pub record Library (Float Double : Type 0) : Type 0 where
  pub widen : Float → Double
  pub zero_double : Double
  pub minus_one : Double
  pub plus : Double → Double → Double
  pub times : Double → Double → Double
  pub greater : Double → Double → Bool
  pub stof : Bytes → Try Float
  pub sort :
      (SearchReference Double → SearchReference Double → Bool)
      → List (SearchReference Double)
      → List (SearchReference Double)

-- The struct VectorEntry, which is also the Entry of the index.
pub record VectorEntry (Float : Type 0) : Type 0 where
  pub document : DocumentRecord
  pub vector : List Float

-- kvai::v1::VectorEntry
pub record ProtoVectorEntry (Float : Type 0) : Type 0 where
  pub document : ProtoDocument
  pub vector : List Float

pub record EntryFormat (Float : Type 0) : Type 0 where
  pub serialize_entry : ProtoVectorEntry Float → Bytes
  pub parse_entry : Bytes → Option (ProtoVectorEntry Float)

pub record VectorIndex (Float : Type 0) : Type 0 where
  pub entries : Map (VectorEntry Float)
  pub file : Option Bytes

-- What the constructor makes over a file.
abbrev pub new_index : {Float : Type 0} → Option Bytes → VectorIndex Float
new_index file = record { entries = []; file = file }

-- EnsureParentDirectory(path)
unfoldable pub ensure_index_directory : Io → Status
ensure_index_directory io = elim io.parent_error [
  | none ↦ ok_status
  | some e ↦ internal (bytes "failed to create index directory: " ++ e)
]

unfoldable pub matches_filter : Map Bytes → SearchFilter → Bool
matches_filter metadata f = elim (find f.field metadata) [
  | none ↦ false
  | some v ↦ bytes_eq v f.expected
]

-- MatchesFilters(entry, filters)
unfoldable pub matches_filters : {Float : Type 0} → VectorEntry Float → List SearchFilter → Bool
matches_filters e [] = true
matches_filters e (f ∷ filters) =
    let rest = matches_filters e filters in
    if matches_filter e.document.metadata f then rest else false

module _ {Float : Type 0} (fmt : EntryFormat Float) where
  unfoldable pub encode_vector_entry : VectorEntry Float → Bytes
  encode_vector_entry e =
      fmt.serialize_entry (record { document = to_proto e.document; vector = e.vector })

  unfoldable pub decode_vector_entry : Bytes → StatusOr (VectorEntry Float)
  decode_vector_entry payload = elim (fmt.parse_entry payload) [
    | none ↦ status (internal (bytes "failed to parse protobuf VectorEntry"))
    | some p ↦ value (record { document = from_proto p.document; vector = p.vector })
  ]

  -- The loop of Recover over the frames.
  unfoldable pub recover_entries :
      Map (VectorEntry Float) → List Bytes → Status × Map (VectorEntry Float)
  recover_entries m [] = (ok_status, m)
  recover_entries m (frame ∷ rest) = elim (decode_vector_entry frame) [
    | status st ↦ (st, m)
    | value e ↦ recover_entries (insert_or_assign (key_of e.document) e m) rest
  ]

  -- FlushSnapshot()
  unfoldable pub flush_index : Io → VectorIndex Float → Status × VectorIndex Float
  flush_index io s =
      if is_ok (ensure_index_directory io)
      then (if io.can_open
          then (
            ok_status,
            record s {
              file =
                  some (magic_header ++ encode_frames (map encode_vector_entry (values s.entries)));
            },
          )
          else (internal (bytes "failed to open index snapshot file"), s))
      else (ensure_index_directory io, s)

module _ {Float : Type 0} where
  -- Upsert(record, vector)
  unfoldable pub upsert :
      DocumentRecord → List Float → VectorIndex Float → Status × VectorIndex Float
  upsert r vector s =
      if is_empty vector then (invalid_argument (bytes "index vector cannot be empty"), s) else (
        ok_status,
        record s {
          entries =
              insert_or_assign (key_of r) (record { document = r; vector = vector }) s.entries;
        },
      )

  -- Remove(collection, key)
  unfoldable pub remove_entry : Bytes → Bytes → VectorIndex Float → Status × VectorIndex Float
  remove_entry collection key s =
      (ok_status, record s { entries = erase (build_composite_key collection key) s.entries })

module _ {Float Double : Type 0} (lib : Library Float Double) where
  -- The loop of DeserializeVector over the tokens.
  unfoldable pub parse_values : List Bytes → Try (List Float)
  parse_values [] = returned []
  parse_values (token ∷ rest) =
      let later = parse_values rest in
      if is_empty token then later else elim (lib.stof token) [
        | raised ↦ raised
        | returned x ↦ elim later [ raised ↦ raised | returned xs ↦ returned (x ∷ xs) ]
      ]

  -- DeserializeVector(encoded)
  unfoldable pub deserialize_vector : Bytes → Try (List Float)
  deserialize_vector encoded = parse_values (tokens_loop b',' [] encoded)

  -- A line of an old snapshot; one that has not six parts is passed over.
  unfoldable pub entry_of_parts : List Bytes → Try (Option (VectorEntry Float))
  entry_of_parts (c ∷ k ∷ t ∷ b ∷ m ∷ v ∷ []) = elim (deserialize_vector v) [
    | raised ↦ raised
    | returned xs ↦ returned (
        some (record {
          document = record {
            collection = unescape c;
            key = unescape k;
            title = unescape t;
            body = unescape b;
            metadata = deserialize_metadata m;
            version = 0;
            updated_at_unix_ms = ℤ.pos 0;
            mutation_id = [];
          };
          vector = xs;
        }))
  ]
  entry_of_parts _ = returned none

  -- The loop of Recover over the lines of an old snapshot.
  unfoldable pub recover_lines :
      Map (VectorEntry Float) → List Bytes → Try (Map (VectorEntry Float))
  recover_lines m [] = returned m
  recover_lines m (line ∷ rest) = elim (entry_of_parts (split_escaped line b'|')) [
    | raised ↦ raised
    | returned none ↦ recover_lines m rest
    | returned (some e) ↦ recover_lines (insert_or_assign (key_of e.document) e m) rest
  ]

  unfoldable pub recover_text :
      EntryFormat Float → Bytes → VectorIndex Float → Try (Status × VectorIndex Float)
  recover_text fmt text s =
      if has_persistence_magic text
      then elim (decode_frames text) [
        | status st ↦ returned (st, record s { entries = [] })
        | value frames ↦
            let (st, m) = recover_entries fmt [] frames in returned (st, record s { entries = m })
      ]
      else elim (recover_lines [] (lines text)) [
        | raised ↦ raised
        | returned m ↦ returned (ok_status, record s { entries = m })
      ]

  -- Recover()
  unfoldable pub recover_index :
      EntryFormat Float → Io → VectorIndex Float → Try (Status × VectorIndex Float)
  recover_index fmt io s = elim (read_whole_file io s.file) [
    | none ↦ returned (ok_status, record s { entries = [] })
    | some text ↦ recover_text fmt text s
  ]

  -- The loop of CosineSimilarity, after which `dot` is the result.
  unfoldable pub dot_product : Double → List Float → List Float → Double
  dot_product dot [] ys = dot
  dot_product dot (x ∷ xs) [] = dot
  dot_product dot (x ∷ xs) (y ∷ ys) =
      dot_product (lib.plus dot (lib.times (lib.widen x) (lib.widen y))) xs ys

  -- CosineSimilarity(lhs, rhs)
  unfoldable pub cosine_similarity : List Float → List Float → Double
  cosine_similarity lhs rhs =
      if length lhs == length rhs then dot_product lib.zero_double lhs rhs else lib.minus_one

  abbrev pub reference_to : List Float → VectorEntry Float → SearchReference Double
  reference_to query e = record {
    collection = e.document.collection;
    key = e.document.key;
    score = cosine_similarity query e.vector;
    metadata = e.document.metadata;
  }

  -- The loop of Search over the entries.
  unfoldable pub collect_matches :
      Bytes
      → List Float
      → List SearchFilter
      → List (VectorEntry Float)
      → List (SearchReference Double)
  collect_matches collection query filters [] = []
  collect_matches collection query filters (e ∷ es) =
      let rest = collect_matches collection query filters es in
      if not (bytes_eq e.document.collection collection) || not (matches_filters e filters)
      then rest
      else reference_to query e ∷ rest

  abbrev pub higher : SearchReference Double → SearchReference Double → Bool
  higher lhs rhs = lib.greater lhs.score rhs.score

  -- Search(collection, query_vector, filters, top_k)
  unfoldable pub search :
      Bytes
      → List Float
      → List SearchFilter
      → ℕ
      → VectorIndex Float
      → StatusOr (List (SearchReference Double))
  search collection query filters top_k s =
      let sorted = lib.sort higher (collect_matches collection query filters (values s.entries)) in
      if is_empty query
      then status (invalid_argument (bytes "query vector cannot be empty"))
      else value (if ltb top_k (length sorted) then take top_k sorted else sorted)
