-- ===== src/Migration.antt =====
-- src/gateway/data_migration.cpp, DataMigrationManager: tasks that hand documents over to their owners,
-- with retries, and the delayed deletion of what was handed over. The HTTP exchange of
-- PostMigrationRecord is the parameter `post`, the JSON text of the task list the parameter `dump`.
pub mod Tries
pub mod Tried
pub mod Service
pub mod Worker
pub mod Local
use range_vec_kv.Base.{
  ℕ, suc, ◌+◌, ◌-◌, ◌%◌, ◌^◌, leb, ◌==◌, not, ◌||◌, Bool, true, false, Option, none, some, List, [],
  ◌∷◌, ◌++◌, map, if◌then◌else◌,
}
use range_vec_kv.Base.Bytes.{Bytes, bytes, bytes_eq}
use range_vec_kv.OrderedMap.{Map, find, insert_or_assign, erase, keys, values}
use range_vec_kv.Status.{Status, ok_status, is_ok, unavailable, internal, to_string}
use range_vec_kv.Document.{DocumentRecord}
use range_vec_kv.Document.Mutation.{is_empty}
use range_vec_kv.WalStore.{Io}
use range_vec_kv.Routing.{ClusterNode, RouteDecision}
use range_vec_kv.Gateway.{KvStore}

-- Clocks count milliseconds from a time before the program's start.
pub record Task : Type 0 where
  pub document : DocumentRecord
  pub target : ClusterNode
  pub semantic : Bool
  pub attempts : ℕ
  pub migration_epoch : ℕ
  pub delete_after_unix_ms : ℕ
  pub delete_after : ℕ

-- DataMigrationStatus without the two numbers that only Status() fills in.
pub record MigrationStatus : Type 0 where
  pub enabled : Bool
  pub state : Bytes
  pub inflight : ℕ
  pub succeeded : ℕ
  pub failed : ℕ
  pub last_scan_unix_ms : ℕ
  pub last_error : Bytes

pub record Migration : Type 0 where
  pub pending : Map Task
  pub delayed_delete : List Task
  pub progress : MigrationStatus
  pub file : Option Bytes

-- The settings that the worker reads.
pub record MigrationConfig : Type 0 where
  pub default_collection : Bytes
  pub max_retries : ℕ
  pub delete_delay_ms : ℕ

pub record Clock : Type 0 where
  pub unix_ms : ℕ
  pub steady_ms : ℕ

-- TaskKey(record); the literal '\0' is one byte.
unfoldable pub task_key : DocumentRecord → Bytes
task_key r = r.collection ++ 0 ∷ r.key

unfoldable pub has_image_key : Map Bytes → List Bytes → Bool
has_image_key metadata [] = false
has_image_key metadata (k ∷ ks) =
    let rest = has_image_key metadata ks in elim (find k metadata) [ none ↦ rest | some v ↦ true ]

-- IsSemanticRecord(record)
unfoldable pub is_semantic_record : MigrationConfig → DocumentRecord → Bool
is_semantic_record config r =
    not (is_empty r.title)
    || bytes_eq r.collection config.default_collection
    || has_image_key r.metadata
        (bytes "image_path" ∷ bytes "image_reference" ∷ bytes "image_uri" ∷ [])

-- SteadyFromUnixMillis(unix_ms)
unfoldable pub steady_from_unix_millis : Clock → ℕ → ℕ
steady_from_unix_millis now unix_ms =
    if leb unix_ms now.unix_ms then now.steady_ms else now.steady_ms + (unix_ms - now.unix_ms)

unfoldable pub ensure_task_directory : Io → Status
ensure_task_directory io = elim io.parent_error [
  | none ↦ ok_status
  | some e ↦ internal (bytes "failed to create migration task wal directory: " ++ e)
]

-- RecordError(status)
abbrev pub record_migration_error : Migration → Status → Migration
record_migration_error s st = record s {
  progress = record s.progress { state = bytes "degraded"; last_error = to_string st };
}

-- A task that was handed over waits for its deletion.
unfoldable pub delay_delete : MigrationConfig → Clock → Task → Task
delay_delete config now t =
    let due = now.unix_ms + config.delete_delay_ms in
    record t { delete_after_unix_ms = due; delete_after = steady_from_unix_millis now due }

-- A task that was not taken is kept for another try, or given up.
unfoldable pub retry_task : MigrationConfig → Bytes → Task → Status → Migration → Migration
retry_task config key t st s =
    let attempts = suc t.attempts % 2 ^ 64 in
    if leb config.max_retries attempts
    then record s {
      progress = record s.progress {
        failed = suc s.progress.failed % 2 ^ 64;
        last_error = to_string st;
      };
      pending = erase key s.pending;
    }
    else record s {
      progress = record s.progress { last_error = to_string st };
      pending = insert_or_assign key (record t { attempts = attempts }) s.pending;
    }

-- The second locked block of ScanOnce for a key, without the writing of the file.
unfoldable pub settle_task : MigrationConfig → Clock → Bytes → Task → Status → Migration → Migration
settle_task config now key t st s =
    if is_ok st
    then record s {
      progress = record s.progress { succeeded = suc s.progress.succeeded % 2 ^ 64 };
      delayed_delete = s.delayed_delete ++ delay_delete config now t ∷ [];
      pending = erase key s.pending;
    }
    else retry_task config key t st s

module _ (dump : List (Bytes × Task) → Bytes) where
  -- PersistTasksLocked()
  unfoldable pub persist_tasks : Io → Migration → Status × Migration
  persist_tasks io s =
      if is_ok (ensure_task_directory io)
      then (if io.can_open
          then (
            ok_status,
            record s {
              file = some (
                  dump (
                    map (λ t. (bytes "pending", t)) (values s.pending)
                    ++ map (λ t. (bytes "delete_pending", t)) s.delayed_delete));
            },
          )
          else (internal (bytes "failed to open migration task wal"), s))
      else (ensure_task_directory io, s)

  -- PersistTasksLocked() with what its callers do about a failure.
  unfoldable pub keep_tasks : Io → Migration → Migration
  keep_tasks io s =
      let (st, s') = persist_tasks io s in if is_ok st then s' else record_migration_error s' st

  module _ {World : Type 0} (post : Task → World → Status × World) where
    -- MigrateTask(task)
    unfoldable pub migrate_task : Task → World → Status × World
    migrate_task t w =
        if is_empty t.target.host || t.target.port == 0
        then (unavailable (bytes "migration target endpoint is empty"), w)
        else post t w

    -- The loop of ScanOnce over the keys of the pending tasks. A task is in flight for the time of its
    -- call only, so that `inflight` is the same after it.
    unfoldable pub migrate_loop :
        MigrationConfig → Clock → (Bytes → Io) → List Bytes → Migration → World → Migration × World
    migrate_loop config now io [] s w = (s, w)
    migrate_loop config now io (key ∷ rest) s w = elim (find key s.pending) [
      | none ↦ migrate_loop config now io rest s w
      | some t ↦
          let (st, w') = migrate_task t w in
          migrate_loop config now io rest (keep_tasks (io key) (settle_task config now key t st s))
            w'
    ]

    -- ScanOnce() from the reading of the keys on.
    unfoldable pub migrate_pending :
        MigrationConfig → Clock → (Bytes → Io) → Migration → World → Migration × World
    migrate_pending config now io s w =
        let started : Migration = record s {
          progress = record s.progress {
            state = bytes "migrating";
            inflight = 0;
            last_scan_unix_ms = now.unix_ms;
          };
        } in
        let (s', w') = migrate_loop config now io (keys started.pending) started w in
        (record s' { progress = record s'.progress { state = bytes "idle" } }, w')
