-- ===== src/ThreadPool/Arena.antt =====
-- src/infra/thread_pool.cpp, TbbThreadPoolBackend: tasks go to a oneTBB arena, of which only their number
-- matters here, and counters say how many are on their way. Each locked block is one action.
use range_vec_kv.Base.{
  ℕ, suc, ◌+◌, ◌-◌, ◌%◌, ◌^◌, leb, ◌==◌, Bool, true, false, Option, none, some, List, [], ◌∷◌,
  if◌then◌else◌,
}
use range_vec_kv.Base.Bytes.{Bytes, bytes}
use range_vec_kv.ThreadPool.{effective_worker_count, effective_queue_capacity}

-- `reserved` counts the threads in SubmitTask between its locked block and the answer of
-- arena_.enqueue, `in_arena` the tasks that the arena has and that have not counted themselves done.
pub record ArenaPool : Type 0 where
  pub worker_count : ℕ
  pub queue_capacity : ℕ
  pub pending_tasks : ℕ
  pub submitted_tasks : ℕ
  pub completed_tasks : ℕ
  pub stopping : Bool
  pub arena_active : Bool
  pub reserved : ℕ
  pub in_arena : ℕ

-- fetch_add(1) and fetch_sub(1) on 64 bits.
abbrev fetch_add : ℕ → ℕ
fetch_add n = suc n % 2 ^ 64

abbrev fetch_sub : ℕ → ℕ
fetch_sub n = (n + (2 ^ 64 - 1)) % 2 ^ 64

-- The constructor.
abbrev pub new_arena_pool : ℕ → ℕ → ArenaPool
new_arena_pool worker_count queue_capacity = record {
  worker_count = effective_worker_count worker_count;
  queue_capacity = effective_queue_capacity worker_count queue_capacity;
  pending_tasks = 0;
  submitted_tasks = 0;
  completed_tasks = 0;
  stopping = false;
  arena_active = true;
  reserved = 0;
  in_arena = 0;
}

-- The locked block of SubmitTask: the message of a refusal.
unfoldable pub reserve_task : ArenaPool → Option Bytes × ArenaPool
reserve_task p =
    if p.stopping
    then (some (bytes "thread pool is stopped"), p)
    else (if leb p.queue_capacity p.pending_tasks
        then (some (bytes "thread pool queue is full"), p)
        else (
          none,
          record p {
            pending_tasks = fetch_add p.pending_tasks;
            submitted_tasks = fetch_add p.submitted_tasks;
            reserved = suc p.reserved;
          },
        ))

-- The arena takes the task, or its enqueue throws and the reservation is taken back.
unfoldable pub enqueue_task : ArenaPool → ArenaPool
enqueue_task p = record p { reserved = p.reserved - 1; in_arena = suc p.in_arena }

unfoldable pub abandon_task : ArenaPool → ArenaPool
abandon_task p = record p {
  pending_tasks = fetch_sub p.pending_tasks;
  submitted_tasks = fetch_sub p.submitted_tasks;
  reserved = p.reserved - 1;
}

-- The locked block behind a task, however it ended.
unfoldable pub finish_arena_task : ArenaPool → ArenaPool
finish_arena_task p = record p {
  completed_tasks = fetch_add p.completed_tasks;
  pending_tasks = fetch_sub p.pending_tasks;
  in_arena = p.in_arena - 1;
}

-- Shutdown() up to its wait, and after it.
unfoldable pub begin_arena_shutdown : ArenaPool → ArenaPool
begin_arena_shutdown p = record p { stopping = true }

unfoldable pub end_arena_shutdown : ArenaPool → ArenaPool
end_arena_shutdown p = if p.arena_active then record p { arena_active = false } else p

pub data ArenaAction : Type 0 where
  reserves enqueues throws finishes begins_shutdown ends_shutdown : ArenaAction

-- One action of some thread; there is none where no thread can do it. A Shutdown waits until nothing is
-- pending; a wait that is over has set `stopping` before.
unfoldable pub arena_act : ArenaAction → ArenaPool → Option ArenaPool
arena_act reserves p = some (reserve_task p).1
arena_act enqueues p = if p.reserved == 0 then none else some (enqueue_task p)
arena_act throws p = if p.reserved == 0 then none else some (abandon_task p)
arena_act finishes p = if p.in_arena == 0 then none else some (finish_arena_task p)
arena_act begins_shutdown p = some (begin_arena_shutdown p)
arena_act ends_shutdown p =
    if p.stopping
    then (if p.pending_tasks == 0 then some (end_arena_shutdown p) else none)
    else none

unfoldable pub arena_schedule : List ArenaAction → ArenaPool → Option ArenaPool
arena_schedule [] p = some p
arena_schedule (a ∷ later) p = elim (arena_act a p) [
  | none ↦ none
  | some q ↦ arena_schedule later q
]
