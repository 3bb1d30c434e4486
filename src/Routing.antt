-- ===== src/Routing.antt =====
-- src/infra/cluster_routing.cpp, ConsistentHashRouter: nodes on a ring of hash values, and the nodes
-- that own a key. std::hash is the parameter `hash`.
pub mod Nodes
pub mod Indices
pub mod Walk
pub mod Owners
pub mod Occupied
pub mod Endless
use range_vec_kv.Base.{
  ℕ, zero, suc, max, min, ltb, ◌+◌, ◌%◌, ◌^◌, ◌==◌, ◌||◌, Bool, true, false, Option, none, some,
  List, [], ◌∷◌, ◌++◌, map, if◌then◌else◌, length,
}
use range_vec_kv.Base.Bytes.{Bytes, bytes, bytes_eq}
use range_vec_kv.Document.Mutation.{is_empty}
use mathlib.Core.List.{reverse}

pub record ClusterNode : Type 0 where
  pub id : Bytes
  pub host : Bytes
  pub port : ℕ
  pub healthy : Bool
  pub weight : ℕ
  pub zone : Bytes

-- `ClusterNode{}`
abbrev pub no_node : ClusterNode
no_node = record { id = []; host = []; port = 0; healthy = true; weight = 100; zone = [] }

pub record RouteDecision : Type 0 where
  pub primary : ClusterNode
  pub replicas : List ClusterNode
  pub local_owner : Bool
  pub has_primary : Bool
  pub slot_id : ℕ

abbrev pub no_route : RouteDecision
no_route = record {
  primary = no_node;
  replicas = [];
  local_owner = false;
  has_primary = false;
  slot_id = 0;
}

-- The digits of n + 1 from those of n, the lowest first.
unfoldable pub increment : Bytes → Bytes
increment [] = b'1' ∷ []
increment (d ∷ ds) = if d == b'9' then b'0' ∷ increment ds else suc d ∷ ds

unfoldable pub low_digits : ℕ → Bytes
low_digits zero = b'0' ∷ []
low_digits (suc n) = increment (low_digits n)

-- std::to_string(n)
unfoldable pub to_decimal : ℕ → Bytes
to_decimal n = reverse (low_digits n)

-- `std::map<std::uint64_t, std::size_t>`: points in ascending order, each with the index of a node.
abbrev pub Ring : Type 0
Ring = List (ℕ × ℕ)

-- ring_.emplace(point, index), which leaves a point that is there
unfoldable pub ring_emplace : ℕ → ℕ → Ring → Ring
ring_emplace point index [] = (point, index) ∷ []
ring_emplace point index ((p, i) ∷ ring) =
    if point == p
    then (p, i) ∷ ring
    else if ltb point p
    then (point, index) ∷ (p, i) ∷ ring
    else (p, i) ∷ ring_emplace point index ring

-- The points from ring_.lower_bound(point) on.
unfoldable pub ring_from : ℕ → Ring → Ring
ring_from point [] = []
ring_from point ((p, i) ∷ ring) = if ltb p point then ring_from point ring else (p, i) ∷ ring

-- An iterator that is at the end is put to the beginning.
unfoldable pub wrap : Ring → Ring → Ring
wrap ring [] = ring
wrap ring (e ∷ rest) = e ∷ rest

-- Whether std::find finds the index.
unfoldable pub member : ℕ → List ℕ → Bool
member x [] = false
member x (y ∷ ys) = x == y || member x ys

abbrev pub add_index : List ℕ → ℕ → List ℕ
add_index selected index = if member index selected then selected else selected ++ index ∷ []

-- The loop of Route. The iterator is the rest of the ring from it on. `none` means that the fuel ran
-- out, or that the iterator was at the end, which does not happen.
unfoldable pub select_loop : ℕ → Ring → Ring → ℕ → List ℕ → Option (List ℕ)
select_loop zero ring at desired selected =
    if ltb (length selected) desired then none else some selected
select_loop (suc fuel) ring [] desired selected =
    if ltb (length selected) desired then none else some selected
select_loop (suc fuel) ring ((p, index) ∷ rest) desired selected =
    let more = select_loop fuel ring (wrap ring rest) desired (add_index selected index) in
    if ltb (length selected) desired then more else some selected

-- nodes_[index]; no index that the router uses is out of range.
unfoldable pub node_at : List ClusterNode → ℕ → ClusterNode
node_at [] index = no_node
node_at (n ∷ nodes) zero = n
node_at (n ∷ nodes) (suc index) = node_at nodes index

abbrev first_index : List ℕ → ℕ
first_index [] = 0
first_index (i ∷ is) = i

pub record Router : Type 0 where
  pub local_node_id : Bytes
  pub virtual_nodes : ℕ
  pub slot_count : ℕ
  pub nodes : List ClusterNode
  pub ring : Ring

-- The constructor.
abbrev pub new_router : Bytes → ℕ → ℕ → Router
new_router id virtual_nodes slot_count = record {
  local_node_id = id;
  virtual_nodes = max 1 virtual_nodes;
  slot_count = max 1 slot_count;
  nodes = [];
  ring = [];
}

unfoldable pub decide : Router → ℕ → List ℕ → RouteDecision
decide r slot selected = record {
  primary = node_at r.nodes (first_index selected);
  replicas = map (node_at r.nodes) selected;
  local_owner = bytes_eq (node_at r.nodes (first_index selected)).id r.local_node_id;
  has_primary = true;
  slot_id = slot;
}

abbrev pub desired_replicas : Router → ℕ → ℕ
desired_replicas r replication_factor = min (max 1 replication_factor) (length r.nodes)

module _ (hash : Bytes → ℕ) where
  unfoldable pub replica_point : Bytes → ℕ → ℕ
  replica_point id replica = hash (id ++ bytes "#" ++ to_decimal replica)

  -- The inner loop of Rebuild: `left` replicas from `replica` on.
  unfoldable pub add_replicas : Bytes → ℕ → ℕ → ℕ → Ring → Ring
  add_replicas id index zero replica ring = ring
  add_replicas id index (suc left) replica ring =
      add_replicas id index left (suc replica) (ring_emplace (replica_point id replica) index ring)

  -- The outer loop of Rebuild: the nodes from `index` on.
  unfoldable pub add_nodes : ℕ → List ClusterNode → ℕ → Ring → Ring
  add_nodes virtual_nodes [] index ring = ring
  add_nodes virtual_nodes (n ∷ nodes) index ring =
      add_nodes virtual_nodes nodes (suc index) (add_replicas n.id index virtual_nodes 0 ring)

  -- Rebuild(nodes)
  unfoldable pub rebuild : Router → List ClusterNode → Router
  rebuild r nodes = record r { nodes = nodes; ring = add_nodes r.virtual_nodes nodes 0 [] }

  -- SlotFor(collection, key), cut to 32 bits
  unfoldable pub slot_for : Router → Bytes → Bytes → ℕ
  slot_for r collection key = hash (collection ++ bytes ":" ++ key) % r.slot_count % 2 ^ 32

  -- Where the loop of Route begins.
  unfoldable pub first_point : Router → ℕ → Ring
  first_point r slot = wrap r.ring (ring_from (hash (bytes "slot:" ++ to_decimal slot)) r.ring)

  -- Route(collection, key, replication_factor)
  unfoldable pub route : ℕ → Router → Bytes → Bytes → ℕ → Option RouteDecision
  route fuel r collection key replication_factor =
      let slot = slot_for r collection key in
      if is_empty r.ring || is_empty r.nodes
      then some no_route
      else elim (select_loop fuel r.ring (first_point r slot)
          (desired_replicas r replication_factor) []) [
            | none ↦ none
            | some selected ↦ some (decide r slot selected)
          ]
