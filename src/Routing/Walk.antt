-- ===== src/Routing/Walk.antt =====
-- The loop of Route ends, and chooses as many different nodes as it is asked for, if every node has a
-- point on the ring.
use range_vec_kv.Base.{
  ℕ, zero, suc, ◌≡◌, ◌≤◌, ◌<◌, ◌+◌, ◌||◌, ltb, refl, subst, true, false, some, List, [], ◌∷◌,
  length, All, arith, Bool-cases, inl, inr,
}
use range_vec_kv.Routing.{Ring, member, add_index, wrap, select_loop}
use range_vec_kv.Routing.Indices.{
  IsDistinct, add_index-IsDistinct, member-add_index, add_index-All, length-add_index,
  covering_length,
}

-- The nodes that have a point.
abbrev pub indices : Ring → List ℕ
indices [] = []
indices ((p, i) ∷ ring) = i ∷ indices ring

-- Every index below `n` has a point.
abbrev pub IsCovering : ℕ → Ring → Type 0
IsCovering n ring = (i : ℕ) → i < n → member i (indices ring) ≡ true

-- Every index on the ring is below `n`.
abbrev pub IsInside : ℕ → Ring → Type 0
IsInside n ring = All (λ i. i < n) (indices ring)

-- A choice of `desired` nodes among `n`.
pub record IsChoice (n desired : ℕ) (selected : List ℕ) : Type 0 where
  pub distinct : IsDistinct selected
  pub inside : All (λ i. i < n) selected
  pub size : length selected ≡ desired

select_loop_full :
    (fuel : ℕ) (ring at : Ring) (desired : ℕ) (selected : List ℕ)
    → ltb (length selected) desired ≡ false
    → select_loop fuel ring at desired selected ≡ some selected
unfolding select_loop
select_loop_full zero ring at desired selected e = rw e
select_loop_full (suc fuel) ring [] desired selected e = rw e
select_loop_full (suc fuel) ring ((p, i) ∷ at) desired selected e = rw e

wrap_self : (ring : Ring) → wrap ring ring ≡ ring
unfolding wrap
wrap_self [] = refl
wrap_self (e ∷ ring) = refl

wrap-cons : (ring rest : Ring) (e : ℕ × ℕ) → wrap ring (e ∷ rest) ≡ e ∷ rest
unfolding wrap
wrap-cons ring rest e = refl

not_below : (a b : ℕ) → ltb a b ≡ false → a ≤ b → a ≡ b
not_below a b e h = ground arith

below : (a b : ℕ) → ltb a b ≡ true → a < b
below a b e = ground arith

not_less : (a b : ℕ) → b ≤ a → ltb a b ≡ false
not_less a b h = ground arith

module _ (n desired : ℕ) (possible : desired ≤ n) where
  -- What the loop still has to do is possible.
  pub record Going (selected : List ℕ) : Type 0 where
    pub distinct : IsDistinct selected
    pub inside : All (λ i. i < n) selected
    pub size : length selected ≤ desired

  abbrev pub Ends : ℕ → Ring → Ring → List ℕ → Type 0
  Ends fuel ring rest selected =
      (r : List ℕ) × (select_loop fuel ring (wrap ring rest) desired selected ≡ some r)
      × IsChoice n desired r

  full_Ends :
      (fuel : ℕ) (ring rest : Ring) (selected : List ℕ)
      → Going selected
      → ltb (length selected) desired ≡ false
      → Ends fuel ring rest selected
  full_Ends fuel ring rest selected g e = (
    selected,
    select_loop_full fuel ring (wrap ring rest) desired selected e,
    record { distinct = g.distinct; inside = g.inside; size = not_below _ _ e g.size },
  )

  add_index-Going :
      (selected : List ℕ) (i : ℕ)
      → i < n
      → ltb (length selected) desired ≡ true
      → Going selected
      → Going (add_index selected i)
  add_index-Going selected i h e g = record {
    distinct = add_index-IsDistinct selected i g.distinct;
    inside = add_index-All n selected i h g.inside;
    size = omega (arith, length-add_index selected i, below _ _ e);
  }

  -- One round.
  step_Ends :
      (fuel : ℕ) (ring rest : Ring) (p i : ℕ) (selected : List ℕ)
      → ltb (length selected) desired ≡ true
      → Ends fuel ring rest (add_index selected i)
      → Ends (suc fuel) ring ((p, i) ∷ rest) selected
  unfolding select_loop wrap
  step_Ends fuel ring rest p i selected e (r, eq, c) = (r, (rw e eq), c)

  -- Every index is chosen already or lies ahead.
  abbrev IsAhead : List ℕ → Ring → Type 0
  IsAhead selected rest = (i : ℕ) → i < n → (member i selected || member i (indices rest)) ≡ true

  IsAhead-add_index :
      (selected : List ℕ) (p i : ℕ) (rest : Ring)
      → IsAhead selected ((p, i) ∷ rest)
      → IsAhead (add_index selected i) rest
  unfolding member
  IsAhead-add_index selected p i rest a j h = ground (arith, a j, member-add_index j selected i)

  second_round :
      (fuel : ℕ) (ring rest : Ring) (selected : List ℕ)
      → length rest ≤ fuel
      → IsInside n rest
      → IsAhead selected rest
      → Going selected
      → Ends fuel ring rest selected
  unfolding member
  second_round fuel ring [] selected f s a g =
      full_Ends fuel ring [] selected g
        (not_less _ _ (omega (arith, covering_length n selected (λ i h. covered i (a i h)))))
    where
      covered : (i : ℕ) → (member i selected || member i []) ≡ true → member i selected ≡ true
      covered i e = ground arith
  second_round zero ring (e ∷ rest) selected f s a g = absurd (omega arith)
  second_round (suc fuel) ring ((p, i) ∷ rest) selected f s a g =
      elim (Bool-cases (ltb (length selected) desired)) [
        | inr e ↦ full_Ends (suc fuel) ring ((p, i) ∷ rest) selected g e
        | inl e ↦ step_Ends fuel ring rest p i selected e (
            second_round fuel ring rest (add_index selected i) (omega arith) s.1
              (IsAhead-add_index selected p i rest a) (add_index-Going selected i s.0 e g))
      ]

  pub first_round :
      (fuel : ℕ) (ring rest : Ring) (selected : List ℕ)
      → length rest + length ring ≤ fuel
      → IsInside n ring
      → IsInside n rest
      → IsCovering n ring
      → Going selected
      → Ends fuel ring rest selected
  unfolding wrap
  first_round fuel ring [] selected f t s c g =
      subst
        (λ at.
          (r : List ℕ) × (select_loop fuel ring at desired selected ≡ some r)
          × IsChoice n desired r)
        (wrap_self ring)
        (second_round fuel ring ring selected (omega arith) t (λ i h. ground (arith, c i h)) g)
  first_round zero ring (e ∷ rest) selected f t s c g = absurd (omega arith)
  first_round (suc fuel) ring ((p, i) ∷ rest) selected f t s c g =
      elim (Bool-cases (ltb (length selected) desired)) [
        | inr e ↦ full_Ends (suc fuel) ring ((p, i) ∷ rest) selected g e
        | inl e ↦ step_Ends fuel ring rest p i selected e (
            first_round fuel ring rest (add_index selected i) (omega arith) t s.1 c
              (add_index-Going selected i s.0 e g))
      ]
