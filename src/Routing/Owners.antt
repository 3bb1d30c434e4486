-- ===== src/Routing/Owners.antt =====
-- Which nodes Route chooses on a ring that Rebuild has made.
use range_vec_kv.Base.{
  ℕ, zero, suc, ◌≡◌, ◌≤◌, ◌<◌, ◌+◌, ◌==◌, ltb, min, max, refl, false, some, List, [], ◌∷◌, ◌++◌,
  length, arith, Bool-cases, inl, inr,
}
use range_vec_kv.Base.Bytes.{Bytes, bytes}
use range_vec_kv.Document.Mutation.{is_empty}
use range_vec_kv.Routing.{
  Ring, Router, ClusterNode, member, ring_from, ring_emplace, route, decide, slot_for, first_point,
  desired_replicas, to_decimal, add_replicas, add_nodes, rebuild, replica_point,
}
use range_vec_kv.Routing.Walk.{IsCovering, IsInside, IsChoice, Ends, first_round}

ring_emplace-IsInside :
    (n p i : ℕ) (ring : Ring) → i < n → IsInside n ring → IsInside n (ring_emplace p i ring)
unfolding ring_emplace
ring_emplace-IsInside n p i [] h a = (h, tt)
ring_emplace-IsInside n p i ((q, j) ∷ ring) h a = elim (Bool-cases (p == q)) [
  | inl e ↦ rw e a
  | inr e ↦ rw e (elim (Bool-cases (ltb p q)) [
    | inl l ↦ rw l (h, a)
    | inr l ↦ rw l (a.0, ring_emplace-IsInside n p i ring h a.1)
  ])
]

pub ring_from-IsInside : (n p : ℕ) (ring : Ring) → IsInside n ring → IsInside n (ring_from p ring)
unfolding ring_from
ring_from-IsInside n p [] a = tt
ring_from-IsInside n p ((q, j) ∷ ring) a = elim (Bool-cases (ltb q p)) [
  | inl e ↦ rw e (ring_from-IsInside n p ring a.1)
  | inr e ↦ rw e a
]

length-ring_from : (p : ℕ) (ring : Ring) → length (ring_from p ring) ≤ length ring
unfolding ring_from
length-ring_from p [] = omega arith
length-ring_from p ((q, j) ∷ ring) = ground (arith, length-ring_from p ring)

module _ (hash : Bytes → ℕ) where
  add_replicas-IsInside :
      (n : ℕ) (id : Bytes) (i left replica : ℕ) (ring : Ring)
      → i < n
      → IsInside n ring
      → IsInside n (add_replicas hash id i left replica ring)
  unfolding add_replicas
  add_replicas-IsInside n id i zero replica ring h a = a
  add_replicas-IsInside n id i (suc left) replica ring h a =
      add_replicas-IsInside n id i left (suc replica)
        (ring_emplace (replica_point hash id replica) i ring) h
        (ring_emplace-IsInside n (replica_point hash id replica) i ring h a)

  add_nodes-IsInside :
      (n v : ℕ) (nodes : List ClusterNode) (i : ℕ) (ring : Ring)
      → i + length nodes ≤ n
      → IsInside n ring
      → IsInside n (add_nodes hash v nodes i ring)
  unfolding add_nodes
  add_nodes-IsInside n v [] i ring h a = a
  add_nodes-IsInside n v (x ∷ nodes) i ring h a =
      add_nodes-IsInside n v nodes (suc i) (add_replicas hash x.id i v 0 ring) (omega arith)
        (add_replicas-IsInside n x.id i v 0 ring (omega arith) a)

  -- Every point of a ring that Rebuild has made belongs to one of the nodes.
  pub rebuild-IsInside :
      (r : Router) (nodes : List ClusterNode) → IsInside (length nodes) (rebuild hash r nodes).ring
  unfolding rebuild
  rebuild-IsInside r nodes =
      add_nodes-IsInside (length nodes) r.virtual_nodes nodes 0 [] (omega arith) tt

  covering_not_empty : (n : ℕ) (ring : Ring) → 0 < n → IsCovering n ring → is_empty ring ≡ false
  unfolding member
  covering_not_empty n [] h c = absurd (cc (c 0 h))
  covering_not_empty n (e ∷ ring) h c = refl

  not_empty : (nodes : List ClusterNode) → 0 < length nodes → is_empty nodes ≡ false
  not_empty [] h = absurd (omega (arith, h))
  not_empty (x ∷ nodes) h = refl

  route_lem :
      (r : Router) (c k : Bytes) (factor fuel : ℕ)
      → 0 < length r.nodes
      → IsInside (length r.nodes) r.ring
      → IsCovering (length r.nodes) r.ring
      → length r.ring + length r.ring ≤ fuel
      → (selected : List ℕ) × (route hash fuel r c k factor
          ≡ some (decide r (slot_for hash r c k) selected))
        × IsChoice (length r.nodes) (desired_replicas r factor) selected
  unfolding route first_point
  route_lem r c k factor fuel h inside cover f = by_loop chosen
    where
      point : ℕ
      point = hash (bytes "slot:" ++ to_decimal (slot_for hash r c k))

      chosen :
          Ends
            (length r.nodes)
            (desired_replicas r factor)
            (omega arith)
            fuel
            r.ring
            (ring_from point r.ring)
            []
      chosen =
          first_round (length r.nodes) (desired_replicas r factor) (omega arith) fuel r.ring
            (ring_from point r.ring) [] (omega (arith, f, length-ring_from point r.ring)) inside
            (ring_from-IsInside (length r.nodes) point r.ring inside) cover
            (record { distinct = tt; inside = tt; size = omega arith })

      by_loop :
          Ends
            (length r.nodes)
            (desired_replicas r factor)
            (omega arith)
            fuel
            r.ring
            (ring_from point r.ring)
            []
          → (selected : List ℕ) × (route hash fuel r c k factor
              ≡ some (decide r (slot_for hash r c k) selected))
            × IsChoice (length r.nodes) (desired_replicas r factor) selected
      by_loop (selected, e, choice) = (
        selected,
        (rw (covering_not_empty (length r.nodes) r.ring h cover, not_empty r.nodes h, e)),
        choice,
      )

  -- On a ring that Rebuild has made from some nodes, Route returns within twice as many rounds as the
  -- ring has points, if every node has a point there. Its replicas are then as many
  -- different nodes as the replication factor says (one, if it is zero), or all of them if they
  -- are fewer, and the first of them is the primary.
  pub route-IsChoice :
      (r₀ : Router) (nodes : List ClusterNode) (c k : Bytes) (factor fuel : ℕ)
      → let r = rebuild hash r₀ nodes in
        0 < length nodes
        → IsCovering (length nodes) r.ring
        → length r.ring + length r.ring ≤ fuel
        → (selected : List ℕ) × (route hash fuel r c k factor
            ≡ some (decide r (slot_for hash r c k) selected))
          × IsChoice (length nodes) (min (max 1 factor) (length nodes)) selected
  unfolding rebuild
  route-IsChoice r₀ nodes c k factor fuel h cover f =
      route_lem (rebuild hash r₀ nodes) c k factor fuel h (rebuild-IsInside r₀ nodes) cover f
