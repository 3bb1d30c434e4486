-- ===== src/Examples/Routes.antt =====
-- Clusters at which the theorems about routing are applied.
use range_vec_kv.Base.{
  ℕ, zero, suc, ◌≡◌, ◌+◌, ◌*◌, refl, false, All, none, some, List, [], ◌∷◌, ◌++◌, min, max, arith,
}
use range_vec_kv.Base.Bytes.{Bytes, bytes}
use range_vec_kv.Status.{value, returned}
use range_vec_kv.Document.Mutation.{is_empty}
use range_vec_kv.Routing.{
  ClusterNode, no_node, Router, new_router, rebuild, route, decide, slot_for, replica_point,
  to_decimal, low_digits, increment, add_nodes, add_replicas, ring_emplace, member,
}
use range_vec_kv.Routing.Nodes.{
  parse_static_cluster_nodes, parse_loop, parse_node, node_with_port, checked_node, some_nodes,
  tokens_loop, find_first, find_last, Yields, IsUsable, parse_static_cluster_nodes-Yields,
}
use range_vec_kv.Auth.{trim, trim_front, trim_back, is_space}
use range_vec_kv.Legacy.{stoull}
use range_vec_kv.Routing.Walk.{IsCovering, IsChoice}
use range_vec_kv.Routing.Owners.{route-IsChoice}
use range_vec_kv.Routing.Endless.{route-endless}

-- A hash that tells short texts apart.
abbrev pub spread : Bytes → ℕ
spread [] = 7
spread (b ∷ rest) = b + 31 * spread rest

abbrev pub east : ClusterNode
east = record no_node { id = bytes "n1"; host = bytes "10.0.0.1"; port = 8080 }

abbrev west : ClusterNode
west = record no_node { id = bytes "n2"; host = bytes "10.0.0.2"; port = 8080 }

abbrev twin : ClusterNode
twin = record no_node { id = bytes "n1"; host = bytes "10.0.0.3"; port = 8080 }

abbrev pub small : Router
small = new_router (bytes "n1") 2 16

both_covered : IsCovering 2 (rebuild spread small (east ∷ west ∷ [])).ring
unfolding rebuild add_nodes add_replicas ring_emplace replica_point to_decimal low_digits increment
    member
both_covered zero h = refl
both_covered (suc zero) h = refl
both_covered (suc (suc i)) h = absurd (omega arith)

route-IsChoice_example :
    let r = rebuild spread small (east ∷ west ∷ []) in
    (selected : List ℕ) × (route spread 8 r (bytes "docs") (bytes "a") 2
      ≡ some (decide r (slot_for spread r (bytes "docs") (bytes "a")) selected))
    × IsChoice 2 (min (max 1 2) 2) selected
unfolding rebuild add_nodes add_replicas ring_emplace replica_point to_decimal low_digits increment
route-IsChoice_example =
    route-IsChoice spread small (east ∷ west ∷ []) (bytes "docs") (bytes "a") 2 8 (omega arith)
      both_covered (omega arith)

route-endless_example :
    route spread 1000
      (rebuild spread small ([] ++ east ∷ ([] ++ twin ∷ [])))
      (bytes "docs")
      (bytes "a")
      2
    ≡ none
route-endless_example =
    route-endless spread small east twin [] [] [] (bytes "docs") (bytes "a") 2 1000 refl
      (omega arith) (omega arith)

parse_static_cluster_nodes-Yields_example :
    Yields
      (λ nodes. (is_empty nodes ≡ false) × All IsUsable nodes)
      (parse_static_cluster_nodes (bytes "n1@10.0.0.1:8080, n2@h:99999"))
parse_static_cluster_nodes-Yields_example =
    parse_static_cluster_nodes-Yields (bytes "n1@10.0.0.1:8080, n2@h:99999")

-- Spaces are cut, and the port is cut to 16 bits.
two_parsed :
    parse_static_cluster_nodes (bytes "n1@10.0.0.1:8080, n2@h:65537,")
    ≡ returned (value (east ∷ record no_node { id = bytes "n2"; host = bytes "h"; port = 1 } ∷ []))
unfolding parse_static_cluster_nodes parse_loop parse_node node_with_port checked_node some_nodes
    tokens_loop find_first find_last trim trim_front trim_back is_space stoull
two_parsed = refl
