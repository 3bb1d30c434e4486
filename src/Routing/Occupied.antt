-- ===== src/Routing/Occupied.antt =====
-- Points that are taken already: a node whose points are all taken gets none on the ring.
use range_vec_kv.Base.{
  ℕ, zero, suc, ◌≡◌, ◌≢◌, ◌≤◌, ◌<◌, ◌+◌, ◌==◌, ==_iff, ◌||◌, ◌&&◌, ltb, refl, Bool, true, false,
  List, [], ◌∷◌, arith, Bool-cases, inl, inr,
}
use range_vec_kv.Base.Bytes.{Bytes}
use range_vec_kv.Routing.{
  Ring, ClusterNode, member, ring_from, ring_emplace, add_replicas, add_nodes, replica_point,
}
use range_vec_kv.Routing.Walk.{indices}

-- Where an emplace of the point would find it.
unfoldable pub occupied : ℕ → Ring → Bool
occupied p [] = false
occupied p ((q, j) ∷ ring) = p == q || (ltb q p && occupied p ring)

occupied-ring_emplace_self : (p i : ℕ) (ring : Ring) → occupied p (ring_emplace p i ring) ≡ true
unfolding occupied ring_emplace
occupied-ring_emplace_self p i [] = ground arith
occupied-ring_emplace_self p i ((q, j) ∷ ring) = ground (arith, occupied-ring_emplace_self p i ring)

occupied-ring_emplace :
    (p q i : ℕ) (ring : Ring) → occupied p ring ≡ true → occupied p (ring_emplace q i ring) ≡ true
unfolding occupied ring_emplace
occupied-ring_emplace p q i [] o = absurd (cc)
occupied-ring_emplace p q i ((r, j) ∷ ring) o = ground (arith, occupied-ring_emplace p q i ring)

ring_emplace-occupied :
    (p i : ℕ) (ring : Ring) → occupied p ring ≡ true → ring_emplace p i ring ≡ ring
unfolding occupied ring_emplace
ring_emplace-occupied p i [] o = absurd (cc)
ring_emplace-occupied p i ((q, j) ∷ ring) o = ground (arith, ring_emplace-occupied p i ring)

-- No point belongs to the node with this index.
abbrev pub Lacks : ℕ → Ring → Type 0
Lacks i ring = member i (indices ring) ≡ false

ring_emplace-Lacks :
    (i p j : ℕ) (ring : Ring) → i ≢ j → Lacks i ring → Lacks i (ring_emplace p j ring)
unfolding ring_emplace member
ring_emplace-Lacks i p j [] n l = ground arith
ring_emplace-Lacks i p j ((q, k) ∷ ring) n l = ground (arith, ring_emplace-Lacks i p j ring)

pub ring_from-Lacks : (i p : ℕ) (ring : Ring) → Lacks i ring → Lacks i (ring_from p ring)
unfolding ring_from member
ring_from-Lacks i p [] l = refl
ring_from-Lacks i p ((q, k) ∷ ring) l = ground (arith, ring_from-Lacks i p ring)

module _ (hash : Bytes → ℕ) where
  pub add_replicas-occupied :
      (p : ℕ) (id : Bytes) (j left t : ℕ) (ring : Ring)
      → occupied p ring ≡ true
      → occupied p (add_replicas hash id j left t ring) ≡ true
  unfolding add_replicas
  add_replicas-occupied p id j zero t ring o = o
  add_replicas-occupied p id j (suc left) t ring o =
      add_replicas-occupied p id j left (suc t) (ring_emplace (replica_point hash id t) j ring)
        (occupied-ring_emplace p (replica_point hash id t) j ring o)

  pub add_nodes-occupied :
      (p v : ℕ) (nodes : List ClusterNode) (j : ℕ) (ring : Ring)
      → occupied p ring ≡ true
      → occupied p (add_nodes hash v nodes j ring) ≡ true
  unfolding add_nodes
  add_nodes-occupied p v [] j ring o = o
  add_nodes-occupied p v (x ∷ nodes) j ring o =
      add_nodes-occupied p v nodes (suc j) (add_replicas hash x.id j v 0 ring)
        (add_replicas-occupied p x.id j v 0 ring o)

  pub add_replicas-Lacks :
      (i : ℕ) (id : Bytes) (j left t : ℕ) (ring : Ring)
      → i ≢ j
      → Lacks i ring
      → Lacks i (add_replicas hash id j left t ring)
  unfolding add_replicas
  add_replicas-Lacks i id j zero t ring n l = l
  add_replicas-Lacks i id j (suc left) t ring n l =
      add_replicas-Lacks i id j left (suc t) (ring_emplace (replica_point hash id t) j ring) n
        (ring_emplace-Lacks i (replica_point hash id t) j ring n l)

  -- Nodes that come later have other indices.
  pub add_nodes-Lacks :
      (i v : ℕ) (nodes : List ClusterNode) (j : ℕ) (ring : Ring)
      → i < j
      → Lacks i ring
      → Lacks i (add_nodes hash v nodes j ring)
  unfolding add_nodes
  add_nodes-Lacks i v [] j ring h l = l
  add_nodes-Lacks i v (x ∷ nodes) j ring h l =
      add_nodes-Lacks i v nodes (suc j) (add_replicas hash x.id j v 0 ring) (omega arith)
        (add_replicas-Lacks i x.id j v 0 ring (omega arith) l)

  -- The points of the replicas from `t` on are there.
  unfoldable pub IsOccupied : Bytes → ℕ → ℕ → Ring → Type 0
  IsOccupied id left t ring =
      (u : ℕ) → t ≤ u → u < t + left → occupied (replica_point hash id u) ring ≡ true

  pub add_replicas-IsOccupied :
      (id : Bytes) (j left t : ℕ) (ring : Ring)
      → IsOccupied id left t (add_replicas hash id j left t ring)
  unfolding add_replicas IsOccupied
  add_replicas-IsOccupied id j zero t ring u h k = absurd (omega arith)
  add_replicas-IsOccupied id j (suc left) t ring u h k = elim (Bool-cases (u == t)) [
    | inl e ↦
        add_replicas-occupied (replica_point hash id u) id j left (suc t) _
          (rw ((==_iff u t).0 e) (occupied-ring_emplace_self (replica_point hash id t) j ring))
    | inr e ↦
        add_replicas-IsOccupied id j left (suc t) (ring_emplace (replica_point hash id t) j ring) u
          (ground arith) (omega arith)
  ]

  -- Replicas whose points are all there add nothing.
  pub add_replicas_same :
      (id : Bytes) (j left t : ℕ) (ring : Ring)
      → IsOccupied id left t ring
      → add_replicas hash id j left t ring ≡ ring
  unfolding add_replicas IsOccupied
  add_replicas_same id j zero t ring o = refl
  add_replicas_same id j (suc left) t ring o =
      rw (ring_emplace-occupied (replica_point hash id t) j ring (o t (omega arith) (omega arith)))
        (add_replicas_same id j left (suc t) ring (λ u h k. o u (omega arith) (omega arith)))
