-- ===== src/ThreadPool/Counted.antt =====
-- The counters of TbbThreadPoolBackend (src/infra/thread_pool.cpp) under any interleaving.
use range_vec_kv.Base.{
  ℕ, ◌+◌, ◌%◌, ◌^◌, ◌≡◌, ◌≤◌, ◌<◌, refl, leb, ◌==◌, Bool, true, false, Option, none, some, List, [],
  ◌∷◌, if◌then◌else◌, arith,
}
use range_vec_kv.Base.Bytes.{Bytes}
use range_vec_kv.ThreadPool.{effective_worker_count, effective_queue_capacity}
use range_vec_kv.ThreadPool.Arena.{
  ArenaPool, new_arena_pool, reserve_task, enqueue_task, abandon_task, finish_arena_task,
  begin_arena_shutdown, end_arena_shutdown, ArenaAction, reserves, enqueues, throws, finishes,
  begins_shutdown, ends_shutdown, arena_act, arena_schedule,
}

-- What holds between any two actions.
pub record IsCounted (p : ArenaPool) : Type 0 where
  pub on_their_way : p.pending_tasks ≡ p.reserved + p.in_arena
  pub bounded : p.pending_tasks ≤ p.queue_capacity
  pub small : p.queue_capacity < 2 ^ 64
  pub submitted : p.submitted_tasks ≡ (p.completed_tasks + p.pending_tasks) % 2 ^ 64
  pub counted : p.completed_tasks < 2 ^ 64
  pub terminated : p.arena_active ≡ false → (p.stopping ≡ true) × (p.pending_tasks ≡ 0)

-- `Holds` of the result, if there is one.
abbrev pub After : (ArenaPool → Type 0) → Option ArenaPool → Type 0
After Holds none = Unit
After Holds (some p) = Holds p

unless :
    (b : Bool) (p : ArenaPool)
    → (b ≡ false → IsCounted p)
    → After IsCounted (if b then none else some p)
unless true p h = tt
unless false p h = h refl

either :
    (b : Bool) (x y : Option Bytes × ArenaPool)
    → (b ≡ true → IsCounted x.1)
    → (b ≡ false → IsCounted y.1)
    → IsCounted (if b then x else y).1
either true x y h k = h refl
either false x y h k = k refl

reserve_task-IsCounted : (p : ArenaPool) → IsCounted p → IsCounted (reserve_task p).1
unfolding reserve_task
reserve_task-IsCounted p c =
    either p.stopping _ _ (λ e. c)
      (λ e.
        either (leb p.queue_capacity p.pending_tasks) _ _ (λ f. c)
          (λ f. record {
            on_their_way = ground (arith, f, c.on_their_way, c.small);
            bounded = ground (arith, f, c.bounded, c.small);
            small = c.small;
            submitted = ground (arith, f, c.submitted, c.small, c.counted);
            counted = c.counted;
            terminated = λ h. absurd (ground (arith, (c.terminated h).0, e));
          }))

enqueue_task-IsCounted :
    (p : ArenaPool) → IsCounted p → (p.reserved == 0) ≡ false → IsCounted (enqueue_task p)
unfolding enqueue_task
enqueue_task-IsCounted p c e = record {
  on_their_way = ground (arith, e, c.on_their_way);
  bounded = c.bounded;
  small = c.small;
  submitted = c.submitted;
  counted = c.counted;
  terminated = c.terminated;
}

abandon_task-IsCounted :
    (p : ArenaPool) → IsCounted p → (p.reserved == 0) ≡ false → IsCounted (abandon_task p)
unfolding abandon_task
abandon_task-IsCounted p c e = record {
  on_their_way = ground (arith, e, c.on_their_way, c.bounded, c.small);
  bounded = ground (arith, e, c.on_their_way, c.bounded, c.small);
  small = c.small;
  submitted = ground (arith, e, c.on_their_way, c.bounded, c.small, c.submitted, c.counted);
  counted = c.counted;
  terminated = λ h. absurd (ground (arith, e, c.on_their_way, (c.terminated h).1));
}

finish_arena_task-IsCounted :
    (p : ArenaPool) → IsCounted p → (p.in_arena == 0) ≡ false → IsCounted (finish_arena_task p)
unfolding finish_arena_task
finish_arena_task-IsCounted p c e = record {
  on_their_way = ground (arith, e, c.on_their_way, c.bounded, c.small);
  bounded = ground (arith, e, c.on_their_way, c.bounded, c.small);
  small = c.small;
  submitted = ground (arith, e, c.on_their_way, c.bounded, c.small, c.submitted, c.counted);
  counted = omega arith;
  terminated = λ h. absurd (ground (arith, e, c.on_their_way, (c.terminated h).1));
}

end_arena_shutdown-IsCounted :
    (p : ArenaPool)
    → IsCounted p
    → p.stopping ≡ true
    → p.pending_tasks ≡ 0
    → IsCounted (end_arena_shutdown p)
unfolding end_arena_shutdown
end_arena_shutdown-IsCounted p c s z = ended p.arena_active
  where
    ended : (b : Bool) → IsCounted (if b then record p { arena_active = false } else p)
    ended false = c
    ended true = record {
      on_their_way = c.on_their_way;
      bounded = c.bounded;
      small = c.small;
      submitted = c.submitted;
      counted = c.counted;
      terminated = λ h. (s, z);
    }

arena_act-IsCounted :
    (a : ArenaAction) (p : ArenaPool) → IsCounted p → After IsCounted (arena_act a p)
unfolding arena_act begin_arena_shutdown
arena_act-IsCounted reserves p c = reserve_task-IsCounted p c
arena_act-IsCounted enqueues p c = unless _ _ (enqueue_task-IsCounted p c)
arena_act-IsCounted throws p c = unless _ _ (abandon_task-IsCounted p c)
arena_act-IsCounted finishes p c = unless _ _ (finish_arena_task-IsCounted p c)
arena_act-IsCounted begins_shutdown p c = record {
  on_their_way = c.on_their_way;
  bounded = c.bounded;
  small = c.small;
  submitted = c.submitted;
  counted = c.counted;
  terminated = λ h. (refl, (c.terminated h).1);
}
arena_act-IsCounted ends_shutdown p c =
    waits p.stopping (p.pending_tasks == 0)
      (λ s z. end_arena_shutdown-IsCounted p c s (ground (arith, z)))
  where
    waits :
        (b d : Bool)
        → (b ≡ true → d ≡ true → IsCounted (end_arena_shutdown p))
        → After IsCounted (if b then (if d then some (end_arena_shutdown p) else none) else none)
    waits false d h = tt
    waits true false h = tt
    waits true true h = h refl refl

new_arena_pool-IsCounted :
    (workers capacity : ℕ) → capacity < 2 ^ 64 → IsCounted (new_arena_pool workers capacity)
unfolding effective_queue_capacity effective_worker_count
new_arena_pool-IsCounted workers capacity h = record {
  on_their_way = refl;
  bounded = omega arith;
  small = ground arith;
  submitted = refl;
  counted = omega arith;
  terminated = λ e. absurd (cc);
}

scheduled-IsCounted :
    (l : List ArenaAction) (p : ArenaPool) → IsCounted p → After IsCounted (arena_schedule l p)
unfolding arena_schedule
scheduled-IsCounted [] p c = c
scheduled-IsCounted (a ∷ l) p c =
    onward (arena_act a p) (arena_act-IsCounted a p c) (λ q d. scheduled-IsCounted l q d)
  where
    onward :
        (o : Option ArenaPool)
        → After IsCounted o
        → ((q : ArenaPool) → IsCounted q → After IsCounted (arena_schedule l q))
        → After IsCounted (elim o [ none ↦ none | some q ↦ arena_schedule l q ])
    onward none d go = tt
    onward (some q) d go = go q d

-- Whatever the threads do, in any interleaving, on a pool whose capacity fits 64 bits: the pending
-- tasks are those on their way to the arena and those in it, and are never more than the capacity; the
-- submitted tasks are the completed and the pending ones, on 64 bits; and the arena is terminated only
-- after a shutdown, with no task pending, so that none is lost and none comes later.
pub arena_schedule-IsCounted :
    (workers capacity : ℕ) (actions : List ArenaAction)
    → capacity < 2 ^ 64
    → After IsCounted (arena_schedule actions (new_arena_pool workers capacity))
arena_schedule-IsCounted workers capacity actions h =
    scheduled-IsCounted actions (new_arena_pool workers capacity)
      (new_arena_pool-IsCounted workers capacity h)
