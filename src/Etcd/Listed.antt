-- ===== src/Etcd/Listed.antt =====
-- The nodes that ReloadNodes of src/infra/etcd_discovery.cpp takes over: ParseEtcdNodeValue lets only
-- nodes through that a request can be sent to.
use range_vec_kv.Base.{
  ℕ, ◌≡◌, ◌≢◌, ◌<◌, ◌+◌, ◌%◌, ◌^◌, ◌==◌, ◌||◌, ltb, refl, Bool, true, false, Option, none, some,
  List, [], ◌∷◌, All, length, take, drop, if◌then◌else◌, arith, Bool-cases, inl, inr,
}
use range_vec_kv.Base.Bytes.{Bytes, bytes}
use range_vec_kv.Status.{StatusOr, value, status, Try, returned, raised, invalid_argument}
use range_vec_kv.OrderedMap.{Map, find}
use range_vec_kv.Document.Mutation.{is_empty}
use range_vec_kv.Codec.{has_prefix}
use range_vec_kv.Legacy.{stoull}
use range_vec_kv.Routing.{ClusterNode, no_node}
use range_vec_kv.Routing.Nodes.{find_last}
use range_vec_kv.Etcd.Values.{
  JsonField, json_text, json_unsigned, json_boolean, json_other, Json, first_visible, legacy_node,
  parse_legacy_node_value, text_value, boolean_value, unsigned_value, json_node, no_port,
  node_of_fields, parse_json_node_value, parse_etcd_node_value,
}
use range_vec_kv.Etcd.Session.{listed_nodes}

-- A node that a request can be sent to.
pub record IsListed (n : ClusterNode) : Type 0 where
  pub hosted : is_empty n.host ≡ false
  pub port_set : n.port ≢ 0
  pub port_fits : n.port < 2 ^ 16

abbrev pub Accepts : {A : Type 0} → (A → Type 0) → StatusOr A → Type 0
Accepts P (status st) = Unit
Accepts P (value x) = P x

json_node-Accepts :
    (json : Json) (id host : Bytes) (port : ℕ) (fields : Map JsonField)
    → Accepts IsListed (json_node json id host port fields)
unfolding json_node
json_node-Accepts json id host port fields =
    elim (Bool-cases (is_empty host || port == 0 || ltb 65535 port)) [
      | inl e ↦ rw e tt
      | inr e ↦ rw e (
          by_healthy (boolean_value json true (find (bytes "healthy") fields))
            (unsigned_value json 100 (find (bytes "weight") fields))
            (text_value json [] (find (bytes "zone") fields)) e)
    ]
  where
    by_healthy :
        (x : StatusOr Bool) (y : StatusOr ℕ) (z : StatusOr Bytes)
        → (is_empty host || port == 0 || ltb 65535 port) ≡ false
        → Accepts IsListed (elim x as (λ a. StatusOr ClusterNode) [
          | status st ↦ status st
          | value healthy ↦ elim y as (λ a. StatusOr ClusterNode) [
            | status st ↦ status st
            | value weight ↦ elim z as (λ a. StatusOr ClusterNode) [
              | status st ↦ status st
              | value zone ↦ value (record {
                id = id;
                host = host;
                port = port;
                healthy = healthy;
                weight = if weight == 0 then 100 else weight;
                zone = zone;
              })
            ]
          ]
        ])
    by_healthy (status st) y z e = tt
    by_healthy (value h) (status st) z e = tt
    by_healthy (value h) (value w) (status st) e = tt
    by_healthy (value h) (value w) (value zn) e = record {
      hosted = ground arith;
      port_set = ground arith;
      port_fits = ground arith;
    }

legacy_node-Accepts :
    (id host what : Bytes) (port : Try ℕ) → Accepts IsListed (legacy_node id host what port)
unfolding legacy_node
legacy_node-Accepts id host what raised = tt
legacy_node-Accepts id host what (returned port) = elim (Bool-cases (port == 0 || ltb 65535 port)) [
  | inl e ↦ rw e tt
  | inr e ↦ elim (Bool-cases (is_empty host)) [
    | inl g ↦ rw (e, g) tt
    | inr g ↦ rw (e, g) (listed e g)
  ]
]
  where
    listed :
        (port == 0 || ltb 65535 port) ≡ false
        → is_empty host ≡ false
        → IsListed (record no_node { id = id; host = host; port = port })
    listed e g = record { hosted = g; port_set = ground arith; port_fits = ground arith }

-- What ReloadNodes keeps of a listing: usable nodes, marked as healthy.
abbrev pub IsHealthy : ClusterNode → Type 0
IsHealthy n = IsListed n × (n.healthy ≡ true)

module _ (json : Json) where
  node_of_fields-Accepts :
      (id : Bytes) (fields : Map JsonField) → Accepts IsListed (node_of_fields json id fields)
  unfolding node_of_fields
  node_of_fields-Accepts id fields =
      by_fields (find (bytes "host") fields) (find (bytes "port") fields)
    where
      by_fields :
          (x y : Option JsonField)
          → Accepts IsListed (elim x as (λ a. StatusOr ClusterNode) [
            | some (json_text host) ↦ elim y as (λ a. StatusOr ClusterNode) [
              | some (json_unsigned port) ↦ json_node json id host (port % 2 ^ 32) fields
              | some (json_text t) ↦ no_port
              | some (json_boolean b) ↦ no_port
              | some (json_other o) ↦ no_port
              | none ↦ no_port
            ]
            | _ ↦ status (invalid_argument (bytes "etcd node JSON value missing string host"))
          ])
      by_fields none y = tt
      by_fields (some (json_unsigned n)) y = tt
      by_fields (some (json_boolean b)) y = tt
      by_fields (some (json_other o)) y = tt
      by_fields (some (json_text host)) none = tt
      by_fields (some (json_text host)) (some (json_text t)) = tt
      by_fields (some (json_text host)) (some (json_boolean b)) = tt
      by_fields (some (json_text host)) (some (json_other o)) = tt
      by_fields (some (json_text host)) (some (json_unsigned port)) =
          json_node-Accepts json id host (port % 2 ^ 32) fields

  parse_json_node_value-Accepts :
      (id text : Bytes) → Accepts IsListed (parse_json_node_value json id text)
  unfolding parse_json_node_value
  parse_json_node_value-Accepts id text = by_parse (json.parse text)
    where
      by_id :
          (fields : Map JsonField) (x : StatusOr Bytes)
          → Accepts IsListed (elim x as (λ a. StatusOr ClusterNode) [
            | status st ↦ status st
            | value i ↦ node_of_fields json (if is_empty i then id else i) fields
          ])
      by_id fields (status st) = tt
      by_id fields (value i) = node_of_fields-Accepts (if is_empty i then id else i) fields

      by_parse :
          (x : Option (Map JsonField))
          → Accepts IsListed (elim x as (λ a. StatusOr ClusterNode) [
            | none ↦ status (invalid_argument (bytes "invalid etcd node JSON value"))
            | some fields ↦
                elim (text_value json id (find (bytes "id") fields))
                  as (λ a. StatusOr ClusterNode) [
                    | status st ↦ status st
                    | value i ↦ node_of_fields json (if is_empty i then id else i) fields
                  ]
          ])
      by_parse none = tt
      by_parse (some fields) = by_id fields (text_value json id (find (bytes "id") fields))

  parse_legacy_node_value-Accepts :
      (id text : Bytes) → Accepts IsListed (parse_legacy_node_value json id text)
  unfolding parse_legacy_node_value
  parse_legacy_node_value-Accepts id text = by_colon (find_last b':' text)
    where
      by_colon :
          (x : Option ℕ)
          → Accepts IsListed (elim x as (λ a. StatusOr ClusterNode) [
            | none ↦ status (invalid_argument (bytes "legacy etcd node value must be host:port"))
            | some colon ↦
                legacy_node id
                  (take colon text)
                  (json.stoul_error (drop (colon + 1) text))
                  (stoull (drop (colon + 1) text))
          ])
      by_colon none = tt
      by_colon (some c) = legacy_node-Accepts id _ _ (stoull (drop (c + 1) text))

  parse_etcd_node_value-Accepts :
      (id text : Bytes) → Accepts IsListed (parse_etcd_node_value json id text)
  unfolding parse_etcd_node_value
  parse_etcd_node_value-Accepts id text = by_first (first_visible text)
    where
      by_first :
          (x : Option ℕ)
          → Accepts IsListed (elim x as (λ a. StatusOr ClusterNode) [
            | none ↦ status (invalid_argument (bytes "etcd node value cannot be empty"))
            | some b ↦
                if b == b'{'
                then parse_json_node_value json id text
                else parse_legacy_node_value json id text
          ])
      by_first none = tt
      by_first (some b) = elim (Bool-cases (b == b'{')) [
        | inl e ↦ rw e (parse_json_node_value-Accepts id text)
        | inr e ↦ rw e (parse_legacy_node_value-Accepts id text)
      ]

  pub listed_nodes-All :
      (prefix : Bytes) (pairs : List (Bytes × Bytes))
      → All IsHealthy (listed_nodes json prefix pairs)
  unfolding listed_nodes
  listed_nodes-All prefix [] = tt
  listed_nodes-All prefix ((key, text) ∷ rest) = elim (Bool-cases (has_prefix prefix key)) [
    | inr e ↦ rw e (listed_nodes-All prefix rest)
    | inl e ↦ rw e (
        by_value (parse_etcd_node_value json (drop (length prefix) key) text)
          (parse_etcd_node_value-Accepts (drop (length prefix) key) text)
          (listed_nodes-All prefix rest))
  ]
    where
      by_value :
          (x : StatusOr ClusterNode)
          → Accepts IsListed x
          → All IsHealthy (listed_nodes json prefix rest)
          → All IsHealthy (elim x as (λ a. List ClusterNode) [
            | status st ↦ listed_nodes json prefix rest
            | value n ↦ record n { healthy = true } ∷ listed_nodes json prefix rest
          ])
      by_value (status st) a h = h
      by_value (value n) a h =
          ((record { hosted = a.hosted; port_set = a.port_set; port_fits = a.port_fits }, refl), h)
