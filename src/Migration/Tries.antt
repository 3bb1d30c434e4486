-- ===== src/Migration/Tries.antt =====
-- One try of each pending task of src/gateway/data_migration.cpp, in order, and where it leads: a plain
-- description of ScanOnce, which Migration/Tried compares with its loop.
use range_vec_kv.Base.{
  ℕ, suc, ◌+◌, ◌≡◌, ◌<◌, ◌%◌, ◌^◌, inl, inr, leb, refl, Bool, true, false, List, [], ◌∷◌,
  Bool-cases, if◌then◌else◌,
}
use range_vec_kv.Base.Bytes.{Bytes}
use range_vec_kv.OrderedMap.{Map}
use range_vec_kv.OrderedMap.Sorted.{IsSorted}
use range_vec_kv.Status.{Status, is_ok}
use range_vec_kv.WalStore.{Io}
use range_vec_kv.Migration.{
  Task, Migration, MigrationConfig, Clock, keep_tasks, persist_tasks, migrate_task,
}

-- The pending tasks have different keys, and the counters are 64-bit numbers.
pub record IsSound (s : Migration) : Type 0 where
  pub sorted : IsSorted s.pending
  pub failed_fits : s.progress.failed < 2 ^ 64
  pub succeeded_fits : s.progress.succeeded < 2 ^ 64

-- A task that its target took waits for its deletion by the delay that is configured.
abbrev pub waiting_task : MigrationConfig → Clock → Task → Task
waiting_task config now t = record t {
  delete_after_unix_ms = now.unix_ms + config.delete_delay_ms;
  delete_after = now.steady_ms + config.delete_delay_ms;
}

abbrev pub tried_again : Task → Task
tried_again t = record t { attempts = suc t.attempts % 2 ^ 64 }

-- What one try of each task, in order, leads to.
pub record Tries (World : Type 0) : Type 0 where
  pub kept : Map Task
  pub waiting : List Task
  pub given_up : ℕ
  pub world : World

-- Only what is written about errors and the file may differ.
pub record HasSameTasks (s t : Migration) : Type 0 where
  pub same_pending : t.pending ≡ s.pending
  pub same_waiting : t.delayed_delete ≡ s.delayed_delete
  pub same_failed : t.progress.failed ≡ s.progress.failed
  pub same_succeeded : t.progress.succeeded ≡ s.progress.succeeded

unchanged : (s : Migration) → HasSameTasks s s
unchanged s = record {
  same_pending = refl;
  same_waiting = refl;
  same_failed = refl;
  same_succeeded = refl;
}

module _ (dump : List (Bytes × Task) → Bytes) where
  pick :
      (s : Migration) (b : Bool) (x y : Status × Migration)
      → HasSameTasks s x.1
      → HasSameTasks s y.1
      → HasSameTasks s (if b then x else y).1
  pick s true x y h k = h
  pick s false x y h k = k

  persist_tasks-HasSameTasks :
      (io : Io) (s : Migration) → HasSameTasks s (persist_tasks dump io s).1
  unfolding persist_tasks
  persist_tasks-HasSameTasks io s =
      pick s _ _ _
        (pick s io.can_open _ _
          (record {
            same_pending = refl;
            same_waiting = refl;
            same_failed = refl;
            same_succeeded = refl;
          })
          (unchanged s))
        (unchanged s)

  pub keep_tasks-HasSameTasks : (io : Io) (s : Migration) → HasSameTasks s (keep_tasks dump io s)
  unfolding keep_tasks
  keep_tasks-HasSameTasks io s = elim (Bool-cases (is_ok (persist_tasks dump io s).0)) [
    | inl e ↦ rw e (persist_tasks-HasSameTasks io s)
    | inr e ↦ rw e (record {
      same_pending = written.same_pending;
      same_waiting = written.same_waiting;
      same_failed = written.same_failed;
      same_succeeded = written.same_succeeded;
    })
  ]
    where
      written : HasSameTasks s (persist_tasks dump io s).1
      written = persist_tasks-HasSameTasks io s

  module _ {World : Type 0} (post : Task → World → Status × World) (config : MigrationConfig)
      (now : Clock) where
    abbrev pub add_try : Bytes → Task → Bool → Tries World → Tries World
    add_try k t true x = record x { waiting = waiting_task config now t ∷ x.waiting }
    add_try k t false x =
        if leb config.max_retries (suc t.attempts % 2 ^ 64)
        then record x { given_up = suc x.given_up }
        else record x { kept = (k, tried_again t) ∷ x.kept }

    unfoldable pub tries : Map Task → World → Tries World
    tries [] w = record { kept = []; waiting = []; given_up = 0; world = w }
    tries ((k, t) ∷ m) w =
        let (st, w') = migrate_task dump post t w in add_try k t (is_ok st) (tries m w')
