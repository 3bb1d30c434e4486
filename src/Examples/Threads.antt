-- ===== src/Examples/Threads.antt =====
-- A schedule at which the theorems about the thread pool are applied.
use range_vec_kv.Base.{
  ℕ, ◌≡◌, ◌≤◌, ◌%◌, ◌^◌, refl, some, List, [], ◌∷◌, ◌++◌, length, true, false, arith,
}
use range_vec_kv.ThreadPool.{
  Pool, Action, submits, wakes, finishes, shuts_down, History, new_pool, no_history, schedule, act,
  wake, worker_turn, submit_task, note_submit, begin_shutdown, complete_task,
  effective_worker_count, effective_queue_capacity,
}
use range_vec_kv.ThreadPool.Arena.{
  ArenaPool, new_arena_pool, reserve_task, enqueue_task, abandon_task, finish_arena_task,
  begin_arena_shutdown, end_arena_shutdown, ArenaAction, reserves, enqueues, throws,
  begins_shutdown, ends_shutdown, arena_act, arena_schedule,
}
use range_vec_kv.ThreadPool.Counted.{IsCounted, After, arena_schedule-IsCounted}
use range_vec_kv.ThreadPool.Schedule.{schedule-in_order, schedule-drained}

-- One worker, room for one task: the third task is refused, and so is the last.
abbrev busy_day : List (Action ℕ)
busy_day =
    submits 7
    ∷ wakes
    ∷ submits 8
    ∷ submits 9
    ∷ finishes
    ∷ shuts_down
    ∷ submits 10
    ∷ wakes
    ∷ finishes
    ∷ wakes
    ∷ []

abbrev drained_pool : Pool ℕ
drained_pool = record {
  queue = [];
  queue_capacity = 1;
  stopping = true;
  submitted = 2;
  completed = 2;
  idle = 0;
  busy = 0;
}

abbrev whole_history : History ℕ
whole_history = record {
  accepted = 7 ∷ 8 ∷ [];
  started = 7 ∷ 8 ∷ [];
  ended = 2;
  returned_workers = 1;
}

busy_day_run : schedule busy_day (new_pool 1 1) no_history ≡ some (drained_pool, whole_history)
unfolding schedule act wake worker_turn submit_task note_submit begin_shutdown complete_task
    effective_worker_count effective_queue_capacity
busy_day_run = refl

schedule-in_order_example :
    (whole_history.accepted ≡ whole_history.started ++ drained_pool.queue)
    × (length drained_pool.queue ≤ drained_pool.queue_capacity)
    × (drained_pool.submitted ≡ length whole_history.accepted % 2 ^ 64)
    × (drained_pool.completed ≡ whole_history.ended % 2 ^ 64)
schedule-in_order_example = schedule-in_order 1 1 busy_day drained_pool whole_history busy_day_run

schedule-drained_example :
    (whole_history.started ≡ whole_history.accepted)
    × (whole_history.ended ≡ length whole_history.accepted)
    × (drained_pool.queue ≡ [])
unfolding effective_worker_count
schedule-drained_example =
    schedule-drained 1 1 busy_day drained_pool whole_history busy_day_run refl

abbrev two_workers : List ArenaAction
two_workers =
    reserves ∷ reserves ∷ reserves ∷ enqueues ∷ throws ∷ begins_shutdown ∷ reserves
    ∷ ArenaAction.finishes ∷ ends_shutdown ∷ []

abbrev closed_pool : ArenaPool
closed_pool = record {
  worker_count = 2;
  queue_capacity = 2;
  pending_tasks = 0;
  submitted_tasks = 1;
  completed_tasks = 1;
  stopping = true;
  arena_active = false;
  reserved = 0;
  in_arena = 0;
}

two_workers_run : arena_schedule two_workers (new_arena_pool 2 2) ≡ some closed_pool
unfolding arena_schedule arena_act reserve_task enqueue_task abandon_task finish_arena_task
    begin_arena_shutdown end_arena_shutdown effective_worker_count effective_queue_capacity
two_workers_run = refl

arena_schedule-IsCounted_example : After IsCounted (arena_schedule two_workers (new_arena_pool 2 2))
arena_schedule-IsCounted_example = arena_schedule-IsCounted 2 2 two_workers (omega arith)
