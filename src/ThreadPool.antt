-- ===== src/ThreadPool.antt =====
-- src/infra/thread_pool.cpp, FallbackThreadPoolBackend: a bounded queue of tasks, workers that take
-- tasks from it, and a shutdown that lets them empty it. Each locked block is one action, so that a
-- run is a list of actions of all threads in the order in which they get the mutex.
pub mod Schedule
pub mod Arena
pub mod Counted
use range_vec_kv.Base.{
  ℕ, suc, max, leb, ◌*◌, ◌%◌, ◌^◌, ◌-◌, ◌==◌, Bool, true, false, Option, none, some, List, [], ◌∷◌,
  ◌++◌, if◌then◌else◌, length,
}
use range_vec_kv.Base.Bytes.{Bytes, bytes}

unfoldable pub effective_worker_count : ℕ → ℕ
effective_worker_count worker_count = max 1 worker_count

-- The product is computed in a 64-bit size_t.
unfoldable pub effective_queue_capacity : ℕ → ℕ → ℕ
effective_queue_capacity worker_count queue_capacity =
    if queue_capacity == 0
    then max 64 (effective_worker_count worker_count * 1024 % 2 ^ 64)
    else queue_capacity

-- `idle` counts the workers that are about to look at the queue, `busy` those that run a task.
pub record Pool (Task : Type 0) : Type 0 where
  pub queue : List Task
  pub queue_capacity : ℕ
  pub stopping : Bool
  pub submitted : ℕ
  pub completed : ℕ
  pub idle : ℕ
  pub busy : ℕ

-- What WorkerLoop does with the mutex in its hand.
pub data Turn (Task : Type 0) : Type 0 where
  waits : Turn Task
  returns : Turn Task
  takes : Task → List Task → Turn Task

module _ {Task : Type 0} where
  -- The constructor.
  abbrev pub new_pool : ℕ → ℕ → Pool Task
  new_pool worker_count queue_capacity = record {
    queue = [];
    queue_capacity = effective_queue_capacity worker_count queue_capacity;
    stopping = false;
    submitted = 0;
    completed = 0;
    idle = effective_worker_count worker_count;
    busy = 0;
  }

  -- SubmitTask(task, error_message): the message, if the task is refused.
  unfoldable pub submit_task : Pool Task → Task → Option Bytes × Pool Task
  submit_task p t =
      if p.stopping
      then (some (bytes "thread pool is stopped"), p)
      else (if leb p.queue_capacity (length p.queue)
          then (some (bytes "thread pool queue is full"), p)
          else (none, record p { queue = p.queue ++ t ∷ []; submitted = suc p.submitted % 2 ^ 64 }))

  -- Shutdown() up to the joins.
  unfoldable pub begin_shutdown : Pool Task → Pool Task
  begin_shutdown p = record p { stopping = true }

  unfoldable pub worker_turn : Bool → List Task → Turn Task
  worker_turn stopping [] = if stopping then returns else waits
  worker_turn stopping (t ∷ ts) = takes t ts

  -- The end of a round of WorkerLoop, after the task has returned or thrown.
  unfoldable pub complete_task : Pool Task → Pool Task
  complete_task p = record p {
    completed = suc p.completed % 2 ^ 64;
    idle = suc p.idle;
    busy = p.busy - 1;
  }

  -- PendingTasks() and WorkerCount(), the latter while no Shutdown has joined the workers.
  unfoldable pub pending_tasks : Pool Task → ℕ
  pending_tasks p = length p.queue

-- What the threads do next.
pub data Action (Task : Type 0) : Type 0 where
  submits : Task → Action Task
  wakes : Action Task
  finishes : Action Task
  shuts_down : Action Task

-- What happened so far: the tasks that were accepted and those that a worker has taken, in order, the
-- number of tasks that ended and of workers that returned.
pub record History (Task : Type 0) : Type 0 where
  pub accepted : List Task
  pub started : List Task
  pub ended : ℕ
  pub returned_workers : ℕ

module _ {Task : Type 0} where
  abbrev pub no_history : History Task
  no_history = record { accepted = []; started = []; ended = 0; returned_workers = 0 }

  unfoldable pub note_submit : History Task → Task → Option Bytes → History Task
  note_submit h t none = record h { accepted = h.accepted ++ t ∷ [] }
  note_submit h t (some e) = h

  -- A worker in state `p` takes its turn; a worker that waits does not move.
  unfoldable pub wake : Pool Task → History Task → Turn Task → Option (Pool Task × History Task)
  wake p h waits = none
  wake p h returns =
      some (record p { idle = p.idle - 1 }, record h { returned_workers = suc h.returned_workers })
  wake p h (takes t ts) = some (
    record p { queue = ts; idle = p.idle - 1; busy = suc p.busy },
    record h { started = h.started ++ t ∷ [] },
  )

  -- One action; there is none where no thread can do it.
  unfoldable pub act : Action Task → Pool Task → History Task → Option (Pool Task × History Task)
  act (submits t) p h = let (e, p') = submit_task p t in some (p', note_submit h t e)
  act wakes p h = if p.idle == 0 then none else wake p h (worker_turn p.stopping p.queue)
  act finishes p h =
      if p.busy == 0 then none else some (complete_task p, record h { ended = suc h.ended })
  act shuts_down p h = some (begin_shutdown p, h)

  unfoldable pub schedule :
      List (Action Task) → Pool Task → History Task → Option (Pool Task × History Task)
  schedule [] p h = some (p, h)
  schedule (a ∷ later) p h = elim (act a p h) [ none ↦ none | some (p', h') ↦ schedule later p' h' ]
