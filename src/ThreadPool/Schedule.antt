-- ===== src/ThreadPool/Schedule.antt =====
-- Every schedule of the pool's threads: tasks start in the order of their submission, the queue
-- keeps its bound, and once a worker has returned nothing that was accepted is left.
use range_vec_kv.Base.{
  ℕ, suc, ◌≡◌, ◌≢◌, ◌≤◌, ◌<◌, ◌+◌, ◌%◌, ◌^◌, ◌==◌, refl, ap, sym, subst, ◌∙◌, Bool, true, false,
  Option, none, some, List, [], ◌∷◌, ◌++◌, length, length-append, arith, Bool-cases, inl, inr, leb,
  if◌then◌else◌,
}
use range_vec_kv.Base.Bytes.{Bytes, bytes}
use range_vec_kv.ThreadPool.{
  Pool, Action, submits, wakes, finishes, shuts_down, History, new_pool, no_history, submit_task,
  begin_shutdown, worker_turn, complete_task, note_submit, wake, act, schedule,
  effective_worker_count,
}
use mathlib.Core.List.{append_assoc, append-nil}

stopped : {b : Bool} → b ≡ false → b ≡ true → ⊥
stopped e f = cc

below : (a b : ℕ) → leb a b ≡ false → b < a
below a b e = ground arith

not_zero : (n : ℕ) → (n == 0) ≡ false → n ≢ 0
not_zero n e z = ground arith

module _ {Task : Type 0} where
  -- What holds of a pool with `n` workers and its history at any time.
  pub record IsSound (n : ℕ) (p : Pool Task) (h : History Task) : Type 0 where
    pub in_order : h.accepted ≡ h.started ++ p.queue
    pub bounded : length p.queue ≤ p.queue_capacity
    pub submitted_count : p.submitted ≡ length h.accepted % 2 ^ 64
    pub completed_count : p.completed ≡ h.ended % 2 ^ 64
    pub started_count : length h.started ≡ h.ended + p.busy
    pub worker_count : p.idle + p.busy + h.returned_workers ≡ n
    pub returned_stopping : h.returned_workers ≢ 0 → p.stopping ≡ true
    pub returned_empty : h.returned_workers ≢ 0 → p.queue ≡ []

  accepted_task : Pool Task → Task → Pool Task
  accepted_task p t = record p { queue = p.queue ++ t ∷ []; submitted = suc p.submitted % 2 ^ 64 }

  accepted_task-IsSound :
      (n : ℕ) (p : Pool Task) (h : History Task) (t : Task)
      → p.stopping ≡ false
      → leb p.queue_capacity (length p.queue) ≡ false
      → IsSound n p h
      → IsSound n (accepted_task p t) (record h { accepted = h.accepted ++ t ∷ [] })
  unfolding accepted_task
  accepted_task-IsSound n p h t e room s = record {
    in_order = ap (λ q. q ++ t ∷ []) s.in_order ∙ append_assoc h.started p.queue (t ∷ []);
    bounded = omega (arith, below _ _ room, length-append p.queue (t ∷ []));
    submitted_count = omega (arith, s.submitted_count, length-append h.accepted (t ∷ []));
    completed_count = s.completed_count;
    started_count = s.started_count;
    worker_count = s.worker_count;
    returned_stopping = s.returned_stopping;
    returned_empty = λ r. absurd (stopped e (s.returned_stopping r));
  }

  submit_task-IsSound :
      (n : ℕ) (p : Pool Task) (h : History Task) (t : Task)
      → IsSound n p h
      → IsSound n (submit_task p t).1 (note_submit h t (submit_task p t).0)
  unfolding submit_task note_submit accepted_task
  submit_task-IsSound n p h t s = by_tests p.stopping _ refl refl
    where
      answer : Bool → Bool → Option Bytes × Pool Task
      answer b c =
          if b
          then (some (bytes "thread pool is stopped"), p)
          else (if c
              then (some (bytes "thread pool queue is full"), p)
              else (none, accepted_task p t))

      by_tests :
          (b c : Bool)
          → p.stopping ≡ b
          → leb p.queue_capacity (length p.queue) ≡ c
          → IsSound n (answer b c).1 (note_submit h t (answer b c).0)
      by_tests true c e full = s
      by_tests false true e full = s
      by_tests false false e room = accepted_task-IsSound n p h t e room s

  -- What follows from here, if anything does, is sound.
  abbrev pub Sound : ℕ → Option (Pool Task × History Task) → Type 0
  Sound n none = Unit
  Sound n (some (p, h)) = IsSound n p h

  wake-IsSound :
      (n : ℕ) (p : Pool Task) (h : History Task) (b : Bool) (q : List Task)
      → p.stopping ≡ b
      → p.queue ≡ q
      → p.idle ≢ 0
      → IsSound n p h
      → Sound n (wake p h (worker_turn b q))
  unfolding wake worker_turn
  wake-IsSound n p h false [] st qu i s = tt
  wake-IsSound n p h true [] st qu i s = record {
    in_order = s.in_order;
    bounded = s.bounded;
    submitted_count = s.submitted_count;
    completed_count = s.completed_count;
    started_count = s.started_count;
    worker_count = omega (arith, s.worker_count);
    returned_stopping = λ r. st;
    returned_empty = λ r. qu;
  }
  wake-IsSound n p h b (t ∷ ts) st qu i s = record {
    in_order = s.in_order ∙ ap (λ q. h.started ++ q) qu ∙ sym (append_assoc h.started (t ∷ []) ts);
    bounded = omega (arith, s.bounded, ap length qu);
    submitted_count = s.submitted_count;
    completed_count = s.completed_count;
    started_count = omega (arith, s.started_count, length-append h.started (t ∷ []));
    worker_count = omega (arith, s.worker_count);
    returned_stopping = s.returned_stopping;
    returned_empty = λ r. absurd (not_empty (sym qu ∙ s.returned_empty r));
  }
    where
      not_empty : (t ∷ ts) ≡ [] → ⊥
      not_empty e = cc

  complete_task-IsSound :
      (n : ℕ) (p : Pool Task) (h : History Task)
      → p.busy ≢ 0
      → IsSound n p h
      → IsSound n (complete_task p) (record h { ended = suc h.ended })
  unfolding complete_task
  complete_task-IsSound n p h b s = record {
    in_order = s.in_order;
    bounded = s.bounded;
    submitted_count = s.submitted_count;
    completed_count = omega (arith, s.completed_count);
    started_count = omega (arith, s.started_count);
    worker_count = omega (arith, s.worker_count);
    returned_stopping = s.returned_stopping;
    returned_empty = s.returned_empty;
  }

  act-IsSound :
      (n : ℕ) (a : Action Task) (p : Pool Task) (h : History Task)
      → IsSound n p h
      → Sound n (act a p h)
  unfolding act begin_shutdown
  act-IsSound n (submits t) p h s = submit_task-IsSound n p h t s
  act-IsSound n wakes p h s = elim (Bool-cases (p.idle == 0)) [
    | inl e ↦ rw e tt
    | inr e ↦ rw e (wake-IsSound n p h p.stopping p.queue refl refl (not_zero p.idle e) s)
  ]
  act-IsSound n finishes p h s = elim (Bool-cases (p.busy == 0)) [
    | inl e ↦ rw e tt
    | inr e ↦ rw e (complete_task-IsSound n p h (not_zero p.busy e) s)
  ]
  act-IsSound n shuts_down p h s = record {
    in_order = s.in_order;
    bounded = s.bounded;
    submitted_count = s.submitted_count;
    completed_count = s.completed_count;
    started_count = s.started_count;
    worker_count = s.worker_count;
    returned_stopping = λ r. refl;
    returned_empty = s.returned_empty;
  }

  schedule-Sound :
      (n : ℕ) (todo : List (Action Task)) (p : Pool Task) (h : History Task)
      → IsSound n p h
      → Sound n (schedule todo p h)
  unfolding schedule
  schedule-Sound n [] p h s = s
  schedule-Sound n (a ∷ later) p h s =
      go (act a p h) (act-IsSound n a p h s) (λ p' h'. schedule-Sound n later p' h')
    where
      go :
          (x : Option (Pool Task × History Task))
          → Sound n x
          → ((p' : Pool Task) (h' : History Task)
              → IsSound n p' h'
              → Sound n (schedule later p' h'))
          → Sound n (elim x [ none ↦ none | some (p', h') ↦ schedule later p' h' ])
      go none y f = tt
      go (some (p', h')) y f = f p' h' y

  new_pool-IsSound :
      (workers capacity : ℕ)
      → IsSound (effective_worker_count workers) (new_pool workers capacity) no_history
  new_pool-IsSound workers capacity = record {
    in_order = refl;
    bounded = omega arith;
    submitted_count = refl;
    completed_count = refl;
    started_count = refl;
    worker_count = omega arith;
    returned_stopping = λ r. absurd (r refl);
    returned_empty = λ r. refl;
  }

  -- Whatever the threads do, in whatever order: the tasks that were accepted are those that workers
  -- have started, in the same order, and then those in the queue; the queue is not longer than
  -- its capacity; and the counters count the accepted and the ended tasks, modulo 2^64.
  pub schedule-in_order :
      (workers capacity : ℕ) (todo : List (Action Task)) (p : Pool Task) (h : History Task)
      → schedule todo (new_pool workers capacity) no_history ≡ some (p, h)
      → (h.accepted ≡ h.started ++ p.queue)
        × (length p.queue ≤ p.queue_capacity)
        × (p.submitted ≡ length h.accepted % 2 ^ 64)
        × (p.completed ≡ h.ended % 2 ^ 64)
  schedule-in_order workers capacity todo p h e =
      (s.in_order, s.bounded, s.submitted_count, s.completed_count)
    where
      s : IsSound (effective_worker_count workers) p h
      s =
          subst (Sound (effective_worker_count workers)) e
            (schedule-Sound _ todo _ _ (new_pool-IsSound workers capacity))

  -- When all workers of a pool have returned, as they have when Shutdown is done with joining them,
  -- every task that was ever accepted was started, in the order of submission, and has ended, and
  -- the queue is empty.
  pub schedule-drained :
      (workers capacity : ℕ) (todo : List (Action Task)) (p : Pool Task) (h : History Task)
      → schedule todo (new_pool workers capacity) no_history ≡ some (p, h)
      → h.returned_workers ≡ effective_worker_count workers
      → (h.started ≡ h.accepted) × (h.ended ≡ length h.accepted) × (p.queue ≡ [])
  unfolding effective_worker_count
  schedule-drained workers capacity todo p h e all =
      (sym in_order, omega (arith, s.started_count, s.worker_count, all, ap length in_order), empty)
    where
      s : IsSound (effective_worker_count workers) p h
      s =
          subst (Sound (effective_worker_count workers)) e
            (schedule-Sound _ todo _ _ (new_pool-IsSound workers capacity))

      empty : p.queue ≡ []
      empty = s.returned_empty (λ z. omega (arith, all, z))

      in_order : h.accepted ≡ h.started
      in_order = s.in_order ∙ ap (λ q. h.started ++ q) empty ∙ append-nil h.started
