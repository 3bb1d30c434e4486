-- ===== src/Etcd/Values.antt =====
-- PrefixRangeEnd, ParseEtcdNodeValue and SerializeEtcdNodeValue of src/infra/etcd_discovery.cpp. The
-- JSON library and the texts of exceptions are the parameter `Json`.
use range_vec_kv.Base.{
  ℕ, ◌+◌, ◌%◌, ◌^◌, ◌==◌, ◌||◌, ltb, Bool, true, Option, none, some, [], ◌∷◌, ◌++◌, take, drop,
  if◌then◌else◌,
}
use range_vec_kv.Base.Bytes.{Bytes, bytes}
use range_vec_kv.OrderedMap.{Map, find, insert_or_assign}
use range_vec_kv.Status.{StatusOr, value, status, invalid_argument, Try, returned, raised}
use range_vec_kv.Document.Mutation.{is_empty}
use range_vec_kv.Legacy.{stoull}
use range_vec_kv.Routing.{ClusterNode, no_node}
use range_vec_kv.Routing.Nodes.{find_last}

-- The loop of PrefixRangeEnd from the back: none means that every byte is 0xff.
unfoldable pub increment_last : Bytes → Option Bytes
increment_last [] = none
increment_last (b ∷ rest) = elim (increment_last rest) [
  | some end ↦ some (b ∷ end)
  | none ↦ if b == 0xff then none else some ((b + 1) ∷ [])
]

-- PrefixRangeEnd(prefix)
unfoldable pub prefix_range_end : Bytes → Bytes
prefix_range_end prefix = elim (increment_last prefix) [ none ↦ 0 ∷ [] | some end ↦ end ]

-- A field of an object. Of a value of another type it is kept what get<unsigned>() makes of it.
pub data JsonField : Type 0 where
  json_text : Bytes → JsonField
  json_unsigned : ℕ → JsonField
  json_boolean : Bool → JsonField
  json_other : Option ℕ → JsonField

-- `parse` gives the fields of a text that is an object.
pub record Json : Type 0 where
  pub parse : Bytes → Option (Map JsonField)
  pub dump : Map JsonField → Bytes
  pub type_error : JsonField → Bytes
  pub stoul_error : Bytes → Bytes

-- The first byte that find_first_not_of(" \t\r\n") finds.
unfoldable pub first_visible : Bytes → Option ℕ
first_visible [] = none
first_visible (b ∷ rest) =
    let later = first_visible rest in
    if b == 32 || b == 9 || b == 13 || b == 10 then later else some b

-- The port is read and checked before the host.
unfoldable pub legacy_node : Bytes → Bytes → Bytes → Try ℕ → StatusOr ClusterNode
legacy_node node_id host what raised =
    status (invalid_argument (bytes "invalid legacy etcd node port: " ++ what))
legacy_node node_id host what (returned port) =
    if port == 0 || ltb 65535 port
    then status (invalid_argument (bytes "legacy etcd node port out of range"))
    else (if is_empty host
        then status (invalid_argument (bytes "legacy etcd node host cannot be empty"))
        else value (record no_node { id = node_id; host = host; port = port }))

abbrev pub weight_or_default : ClusterNode → ℕ
weight_or_default n = if n.weight == 0 then 100 else n.weight

abbrev pub no_port : StatusOr ClusterNode
no_port = status (invalid_argument (bytes "etcd node JSON value missing numeric port"))

module _ (json : Json) where
  -- ParseLegacyNodeValue(node_id, value); std::stoul reads as std::stoull does.
  unfoldable pub parse_legacy_node_value : Bytes → Bytes → StatusOr ClusterNode
  parse_legacy_node_value node_id text = elim (find_last b':' text) [
    | none ↦ status (invalid_argument (bytes "legacy etcd node value must be host:port"))
    | some colon ↦
        legacy_node node_id (take colon text) (json.stoul_error (drop (colon + 1) text))
          (stoull (drop (colon + 1) text))
  ]

  unfoldable pub field_type_error : {A : Type 0} → JsonField → StatusOr A
  field_type_error f =
      status (invalid_argument (bytes "invalid etcd node JSON field type: " ++ json.type_error f))

  -- parsed.value(name, default) for a text, a Boolean and an `unsigned int`.
  unfoldable pub text_value : Bytes → Option JsonField → StatusOr Bytes
  text_value default none = value default
  text_value default (some (json_text t)) = value t
  text_value default (some (json_unsigned n)) = field_type_error (json_unsigned n)
  text_value default (some (json_boolean b)) = field_type_error (json_boolean b)
  text_value default (some (json_other o)) = field_type_error (json_other o)

  unfoldable pub boolean_value : Bool → Option JsonField → StatusOr Bool
  boolean_value default none = value default
  boolean_value default (some (json_boolean b)) = value b
  boolean_value default (some (json_text t)) = field_type_error (json_text t)
  boolean_value default (some (json_unsigned n)) = field_type_error (json_unsigned n)
  boolean_value default (some (json_other o)) = field_type_error (json_other o)

  unfoldable pub unsigned_value : ℕ → Option JsonField → StatusOr ℕ
  unsigned_value default none = value default
  unsigned_value default (some (json_unsigned n)) = value (n % 2 ^ 32)
  unsigned_value default (some (json_boolean b)) = value (if b then 1 else 0)
  unsigned_value default (some (json_other (some n))) = value (n % 2 ^ 32)
  unsigned_value default (some (json_other none)) = field_type_error (json_other none)
  unsigned_value default (some (json_text t)) = field_type_error (json_text t)

  -- The end of ParseEtcdNodeValue, from the check of host and port on.
  unfoldable pub json_node : Bytes → Bytes → ℕ → Map JsonField → StatusOr ClusterNode
  json_node id host port fields =
      if is_empty host || port == 0 || ltb 65535 port
      then status (invalid_argument (bytes "etcd node JSON value has invalid host or port"))
      else elim (boolean_value true (find (bytes "healthy") fields)) [
        | status st ↦ status st
        | value healthy ↦ elim (unsigned_value 100 (find (bytes "weight") fields)) [
          | status st ↦ status st
          | value weight ↦ elim (text_value [] (find (bytes "zone") fields)) [
            | status st ↦ status st
            | value zone ↦ value (record {
              id = id;
              host = host;
              port = port;
              healthy = healthy;
              weight = if weight == 0 then 100 else weight;
              zone = zone;
            })
          ]
        ]
      ]

  -- The checks that the host is a text and the port an unsigned number, which is cut to 32 bits.
  unfoldable pub node_of_fields : Bytes → Map JsonField → StatusOr ClusterNode
  node_of_fields id fields = elim (find (bytes "host") fields) [
    | some (json_text host) ↦ elim (find (bytes "port") fields) [
      | some (json_unsigned port) ↦ json_node id host (port % 2 ^ 32) fields
      | some (json_text t) ↦ no_port
      | some (json_boolean b) ↦ no_port
      | some (json_other o) ↦ no_port
      | none ↦ no_port
    ]
    | _ ↦ status (invalid_argument (bytes "etcd node JSON value missing string host"))
  ]

  -- ParseEtcdNodeValue of a text that begins with '{'.
  unfoldable pub parse_json_node_value : Bytes → Bytes → StatusOr ClusterNode
  parse_json_node_value node_id text = elim (json.parse text) [
    | none ↦ status (invalid_argument (bytes "invalid etcd node JSON value"))
    | some fields ↦ elim (text_value node_id (find (bytes "id") fields)) [
      | status st ↦ status st
      | value id ↦ node_of_fields (if is_empty id then node_id else id) fields
    ]
  ]

  -- ParseEtcdNodeValue(node_id, value)
  unfoldable pub parse_etcd_node_value : Bytes → Bytes → StatusOr ClusterNode
  parse_etcd_node_value node_id text = elim (first_visible text) [
    | none ↦ status (invalid_argument (bytes "etcd node value cannot be empty"))
    | some b ↦
        if b == b'{'
        then parse_json_node_value node_id text
        else parse_legacy_node_value node_id text
  ]

  -- SerializeEtcdNodeValue(node)
  unfoldable pub serialize_etcd_node_value : ClusterNode → Bytes
  serialize_etcd_node_value n = json.dump (
      insert_or_assign (bytes "zone") (json_text n.zone) (
        insert_or_assign (bytes "weight") (json_unsigned (weight_or_default n)) (
          insert_or_assign (bytes "healthy") (json_boolean n.healthy) (
            insert_or_assign (bytes "port") (json_unsigned n.port) (
              insert_or_assign (bytes "host") (json_text n.host) (
                insert_or_assign (bytes "id") (json_text n.id)
                  (insert_or_assign (bytes "version") (json_unsigned 1) [])))))))
