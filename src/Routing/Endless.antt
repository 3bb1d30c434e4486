-- ===== src/Routing/Endless.antt =====
-- Two nodes with one id: the second has no point on the ring, and Route does not return when it is
-- asked for all nodes. ParseStaticClusterNodes does not refuse such a list.
use range_vec_kv.Base.{
  ℕ, zero, suc, ◌≡◌, ◌≤◌, ◌<◌, ◌+◌, ◌==◌, ltb, refl, sym, subst, true, false, none, List, [], ◌∷◌,
  ◌++◌, length, length-append, All, arith,
}
use range_vec_kv.Base.Bytes.{Bytes, bytes}
use range_vec_kv.Document.Mutation.{is_empty}
use range_vec_kv.Routing.{
  Ring, Router, ClusterNode, member, add_index, wrap, ring_from, select_loop, route, slot_for,
  first_point, desired_replicas, to_decimal, add_replicas, add_nodes, rebuild, replica_point,
}
use range_vec_kv.Routing.Indices.{
  IsDistinct, add_index-IsDistinct, member-add_index, add_index-All, distinct_length,
}
use range_vec_kv.Routing.Walk.{IsInside}
use range_vec_kv.Routing.Owners.{ring_from-IsInside, rebuild-IsInside}
use range_vec_kv.Routing.Occupied.{
  occupied, Lacks, ring_from-Lacks, IsOccupied, add_nodes-occupied, add_replicas-occupied,
  add_replicas-Lacks, add_nodes-Lacks, add_replicas-IsOccupied, add_replicas_same,
}

-- A loop that wants all of `n` nodes does not end while one of them is on no point.
module _ (n i : ℕ) (below : i < n) (ring : Ring) (inside : IsInside n ring)
    (lacks : Lacks i ring) where
  -- What has been chosen so far.
  record IsPartial (selected : List ℕ) : Type 0 where
    distinct : IsDistinct selected
    within : All (λ j. j < n) selected
    without_it : member i selected ≡ false

  -- The missing node and the chosen ones are different, so that these are fewer than `n`.
  still_short : (selected : List ℕ) → IsPartial selected → ltb (length selected) n ≡ true
  still_short selected p =
      short (distinct_length n (i ∷ selected) (p.without_it, p.distinct) (below, p.within))
    where
      short : suc (length selected) ≤ n → ltb (length selected) n ≡ true
      short h = ground arith

  other_index : (p j : ℕ) (rest : Ring) → Lacks i ((p, j) ∷ rest) → (i == j) ≡ false
  unfolding member
  other_index p j rest l = ground arith

  later-Lacks : (p j : ℕ) (rest : Ring) → Lacks i ((p, j) ∷ rest) → Lacks i rest
  unfolding member
  later-Lacks p j rest l = ground arith

  add_index-IsPartial :
      (selected : List ℕ) (j : ℕ)
      → j < n
      → (i == j) ≡ false
      → IsPartial selected
      → IsPartial (add_index selected j)
  add_index-IsPartial selected j h e p = record {
    distinct = add_index-IsDistinct selected j p.distinct;
    within = add_index-All n selected j h p.within;
    without_it = ground (arith, member-add_index i selected j, p.without_it);
  }

  wrap_both :
      (rest : Ring)
      → IsInside n rest
      → Lacks i rest
      → IsInside n (wrap ring rest) × Lacks i (wrap ring rest)
  unfolding wrap
  wrap_both [] h l = (inside, lacks)
  wrap_both (e ∷ rest) h l = (h, l)

  select_loop_endless :
      (fuel : ℕ) (at : Ring) (selected : List ℕ)
      → IsInside n at
      → Lacks i at
      → IsPartial selected
      → select_loop fuel ring at n selected ≡ none
  unfolding select_loop
  select_loop_endless zero at selected h l p = rw (still_short selected p)
  select_loop_endless (suc fuel) [] selected h l p = rw (still_short selected p)
  select_loop_endless (suc fuel) ((q, j) ∷ rest) selected h l p =
      let both = wrap_both rest h.1 (later-Lacks q j rest l) in
      rw (still_short selected p) (
        select_loop_endless fuel (wrap ring rest) (add_index selected j) both.0 both.1
          (add_index-IsPartial selected j h.0 (other_index q j rest l) p))

  start-IsPartial : IsPartial []
  unfolding member
  start-IsPartial = record { distinct = tt; within = tt; without_it = refl }

module _ (hash : Bytes → ℕ) (v : ℕ) (a b : ClusterNode) (same : a.id ≡ b.id) where
  -- Behind a node with the same id a node gets no point.
  after_first :
      (i : ℕ) (mid post : List ClusterNode) (j : ℕ) (ring : Ring)
      → i ≡ j + length mid
      → IsOccupied hash b.id v 0 ring
      → Lacks i ring
      → Lacks i (add_nodes hash v (mid ++ b ∷ post) j ring)
  unfolding add_nodes IsOccupied
  after_first i [] post j ring e o l =
      rw (add_replicas_same hash b.id j v 0 ring o, add_nodes)
        (add_nodes-Lacks hash i v post (suc j) ring (omega arith) l)
  after_first i (x ∷ mid) post j ring e o l =
      after_first i mid post (suc j) (add_replicas hash x.id j v 0 ring) (omega arith)
        (λ u h k. add_replicas-occupied hash (replica_point hash b.id u) x.id j v 0 ring (o u h k))
        (add_replicas-Lacks hash i x.id j v 0 ring (omega arith) l)

  two_nodes :
      (i : ℕ) (pre mid post : List ClusterNode) (j : ℕ) (ring : Ring)
      → i ≡ j + length pre + suc (length mid)
      → Lacks i ring
      → Lacks i (add_nodes hash v (pre ++ a ∷ (mid ++ b ∷ post)) j ring)
  unfolding add_nodes
  two_nodes i [] mid post j ring e l =
      after_first i mid post (suc j) (add_replicas hash a.id j v 0 ring) (omega arith)
        (subst (λ id. IsOccupied hash id v 0 (add_replicas hash a.id j v 0 ring)) same
          (add_replicas-IsOccupied hash a.id j v 0 ring))
        (add_replicas-Lacks hash i a.id j v 0 ring (omega arith) l)
  two_nodes i (x ∷ pre) mid post j ring e l =
      two_nodes i pre mid post (suc j) (add_replicas hash x.id j v 0 ring) (omega arith)
        (add_replicas-Lacks hash i x.id j v 0 ring (omega arith) l)

module _ (hash : Bytes → ℕ) where
  first_occupied :
      (p v : ℕ) (a : ClusterNode) (pre rest : List ClusterNode) (j : ℕ) (ring : Ring)
      → p ≡ replica_point hash a.id 0
      → 0 < v
      → occupied p (add_nodes hash v (pre ++ a ∷ rest) j ring) ≡ true
  unfolding add_nodes IsOccupied
  first_occupied p v a [] rest j ring e h =
      add_nodes-occupied hash p v rest (suc j) (add_replicas hash a.id j v 0 ring) (
        subst (λ q. occupied q (add_replicas hash a.id j v 0 ring) ≡ true) (sym e)
          (add_replicas-IsOccupied hash a.id j v 0 ring 0 (omega arith) (omega arith)))
  first_occupied p v a (x ∷ pre) rest j ring e h =
      first_occupied p v a pre rest (suc j) (add_replicas hash x.id j v 0 ring) e h

  not_empty : (p : ℕ) (ring : Ring) → occupied p ring ≡ true → is_empty ring ≡ false
  unfolding occupied
  not_empty p [] o = absurd (cc)
  not_empty p (e ∷ ring) o = refl

  some_nodes : (nodes : List ClusterNode) (i : ℕ) → i < length nodes → is_empty nodes ≡ false
  some_nodes [] i h = absurd (omega (arith, h))
  some_nodes (x ∷ nodes) i h = refl

  route_lacking :
      (r : Router) (c k : Bytes) (factor fuel i : ℕ)
      → is_empty r.ring ≡ false
      → IsInside (length r.nodes) r.ring
      → i < length r.nodes
      → Lacks i r.ring
      → length r.nodes ≤ factor
      → route hash fuel r c k factor ≡ none
  unfolding route first_point
  route_lacking r c k factor fuel i ring inside h l f =
      rw (ring, some_nodes r.nodes i h) (rw (all_wanted, loops))
    where
      point : ℕ
      point = hash (bytes "slot:" ++ to_decimal (slot_for hash r c k))

      all_wanted : desired_replicas r factor ≡ length r.nodes
      all_wanted = omega arith

      start :
          IsInside (length r.nodes) (first_point hash r (slot_for hash r c k))
          × Lacks i (first_point hash r (slot_for hash r c k))
      start =
          wrap_both (length r.nodes) i h r.ring inside l (ring_from point r.ring)
            (ring_from-IsInside (length r.nodes) point r.ring inside)
            (ring_from-Lacks i point r.ring l)

      loops :
          select_loop fuel r.ring (first_point hash r (slot_for hash r c k)) (length r.nodes) []
          ≡ none
      loops =
          select_loop_endless (length r.nodes) i h r.ring inside l fuel
            (first_point hash r (slot_for hash r c k)) [] start.0 start.1
            (start-IsPartial (length r.nodes) i h r.ring inside l)

  -- If two nodes have the same id and the replication factor asks for all nodes, Route never returns:
  -- however many rounds the loop is given, it has not ended.
  pub route-endless :
      (r₀ : Router) (a b : ClusterNode) (pre mid post : List ClusterNode) (c k : Bytes)
      (factor fuel : ℕ)
      → a.id ≡ b.id
      → 0 < r₀.virtual_nodes
      → length (pre ++ a ∷ (mid ++ b ∷ post)) ≤ factor
      → route hash fuel (rebuild hash r₀ (pre ++ a ∷ (mid ++ b ∷ post))) c k factor ≡ none
  unfolding rebuild member
  route-endless r₀ a b pre mid post c k factor fuel same v f =
      route_lacking (rebuild hash r₀ nodes) c k factor fuel (length pre + suc (length mid))
        (not_empty (replica_point hash a.id 0) _
          (first_occupied _ r₀.virtual_nodes a pre (mid ++ b ∷ post) 0 [] refl v))
        (rebuild-IsInside hash r₀ nodes)
        (omega (arith, length-append pre (a ∷ (mid ++ b ∷ post)), length-append mid (b ∷ post)))
        (two_nodes hash r₀.virtual_nodes a b same (length pre + suc (length mid)) pre mid post 0 []
          (omega arith) refl)
        f
    where
      nodes : List ClusterNode
      nodes = pre ++ a ∷ (mid ++ b ∷ post)
