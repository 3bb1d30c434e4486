-- ===== src/Examples/Migrations.antt =====
-- A migration at which the theorem about its tasks is applied: one is taken, one is given up.
use range_vec_kv.Base.{
  inr, true, ℕ, ◌≡◌, refl, ◌++◌, true, none, some, List, [], ◌∷◌, if◌then◌else◌,
}
use range_vec_kv.Base.Bytes.{Bytes, bytes, bytes_eq, bytes_lt}
use range_vec_kv.OrderedMap.{find, erase, insert_or_assign, keys, values}
use range_vec_kv.Status.{Status, ok_status, unavailable}
use range_vec_kv.Document.{DocumentRecord}
use range_vec_kv.Migration.{
  Task, Migration, MigrationConfig, Clock, migrate_pending, migrate_loop, migrate_task, settle_task,
  retry_task, delay_delete, keep_tasks, persist_tasks, ensure_task_directory,
}
use range_vec_kv.WalStore.{get}
use range_vec_kv.Routing.{RouteDecision, no_route}
use range_vec_kv.Serving.Laws.{wal_kv}
use range_vec_kv.Migration.Worker.{process_due_deletes}
use range_vec_kv.Migration.Local.{process_due_deletes-get}
use range_vec_kv.Examples.Format.{format}
use range_vec_kv.Examples.Searches.{fruits, docs-IsPlain}
use range_vec_kv.Examples.Stores.{apple, banana, working_io}
use range_vec_kv.Examples.Routes.{east}

abbrev first_try : DocumentRecord → Task
first_try r = record {
  document = r;
  target = east;
  semantic = true;
  attempts = 0;
  migration_epoch = 5;
  delete_after_unix_ms = 9;
  delete_after = 9;
}

-- A target that refuses the key "b" and counts its calls.
abbrev choosy : Task → ℕ → Status × ℕ
choosy t n =
    if bytes_eq t.document.key (bytes "b")
    then (unavailable (bytes "migration target rejected record"), n)
    else (ok_status, n)

abbrev task_names : List (Bytes × Task) → Bytes
task_names [] = []
task_names ((state, t) ∷ rest) = state ++ t.document.key ++ task_names rest

abbrev one_try : MigrationConfig
one_try = record { default_collection = bytes "docs"; max_retries = 1; delete_delay_ms = 30 }

abbrev two_tasks : Migration
two_tasks = record {
  pending =
      (bytes "docs" ++ 0 ∷ bytes "a", first_try apple)
      ∷ (bytes "docs" ++ 0 ∷ bytes "b", first_try banana)
      ∷ [];
  delayed_delete = [];
  progress = record {
    enabled = true;
    state = bytes "idle";
    inflight = 0;
    succeeded = 0;
    failed = 0;
    last_scan_unix_ms = 0;
    last_error = [];
  };
  file = none;
}

abbrev at_ten : Clock
at_ten = record { unix_ms = 10; steady_ms = 10 }

-- The file then names the task that waits for its deletion.
file_after :
    (migrate_pending task_names choosy one_try at_ten (λ k. working_io) two_tasks 0).0.file
    ≡ some (bytes "delete_pendinga")
unfolding migrate_pending migrate_loop migrate_task settle_task retry_task delay_delete keep_tasks
    persist_tasks ensure_task_directory find erase insert_or_assign keys values bytes_eq bytes_lt
file_after = refl

-- The node owns the key "a" and nothing else.
abbrev owns_a : Bytes → Bytes → RouteDecision
owns_a c k = record no_route { has_primary = true; local_owner = bytes_eq k (bytes "a") }

abbrev no_removal : Bytes → Bytes → ℕ → Status × ℕ
no_removal c k n = (ok_status, n)

abbrev two_due : Migration
two_due = record two_tasks { delayed_delete = first_try apple ∷ first_try banana ∷ [] }

process_due_deletes-get_example :
    get
      (process_due_deletes owns_a
        (wal_kv format working_io)
        no_removal
        task_names
        at_ten
        working_io
        two_due
        fruits
        0).1
      (bytes "docs")
      (bytes "a")
    ≡ get fruits (bytes "docs") (bytes "a")
unfolding bytes_eq
process_due_deletes-get_example =
    process_due_deletes-get owns_a format working_io no_removal (bytes "docs") (bytes "a")
      docs-IsPlain (inr refl) task_names at_ten working_io two_due fruits 0
      (docs-IsPlain, (docs-IsPlain, tt))
