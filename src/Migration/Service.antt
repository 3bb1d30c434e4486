-- ===== src/Migration/Service.antt =====
-- DataMigrationManager of src/gateway/data_migration.cpp around the tries of its tasks: the search for
-- documents of other owners, the deletions that are due, the task file, start and stop. Route of the
-- router is the parameter `route_of`, the JSON text of the file `read_items`.
use range_vec_kv.Base.{
  ℕ, ◌+◌, leb, not, ◌&&◌, ◌||◌, Bool, true, false, Option, none, some, List, [], ◌∷◌, ◌++◌, length,
  if◌then◌else◌,
}
use range_vec_kv.Base.Bytes.{Bytes, bytes, bytes_eq}
use range_vec_kv.OrderedMap.{insert_or_assign}
use range_vec_kv.Status.{
  Status, value, status, ok_status, is_ok, internal, invalid_argument, Try, returned, raised,
}
use range_vec_kv.Document.{DocumentRecord}
use range_vec_kv.Document.Mutation.{is_empty}
use range_vec_kv.Outbox.{Services}
use range_vec_kv.Routing.{ClusterNode, RouteDecision}
use range_vec_kv.Gateway.{KvStore}
use range_vec_kv.Migration.{
  Task, MigrationStatus, Migration, MigrationConfig, Clock, task_key, is_semantic_record,
  steady_from_unix_millis, record_migration_error,
}

abbrev pub is_remote : RouteDecision → Bool
is_remote d = d.has_primary && not d.local_owner

-- The task of ScanOnce for a document of another owner.
abbrev pub new_task : MigrationConfig → Clock → DocumentRecord → ClusterNode → Task
new_task config now r target = record {
  document = r;
  target = target;
  semantic = is_semantic_record config r;
  attempts = 0;
  migration_epoch = now.unix_ms;
  delete_after_unix_ms = now.unix_ms + config.delete_delay_ms;
  delete_after = now.steady_ms + config.delete_delay_ms;
}

-- The tasks that are due and the others, in order.
unfoldable pub split_due : ℕ → List Task → List Task × List Task
split_due now [] = ([], [])
split_due now (t ∷ tasks) =
    let (due, later) = split_due now tasks in
    if leb t.delete_after now then (t ∷ due, later) else (due, t ∷ later)

-- What the JSON library makes of an item of the task file: no object; an object of which a field that
-- is read has a value of another type, at which the library throws; or the task of its fields with
-- its state, which the library throws at too if it is no text.
pub data TaskItem : Type 0 where
  not_object : TaskItem
  wrong_type : TaskItem
  fields : Task → Option Bytes → TaskItem

pub data TaskFile : Type 0 where
  not_json : TaskFile
  not_array : TaskFile
  items : List TaskItem → TaskFile

-- An item of RecoverTasksLocked.
unfoldable pub recover_item : Clock → Task → Option Bytes → Migration → Try Migration
recover_item now t state s =
    let timed : Task = record t {
      delete_after = steady_from_unix_millis now t.delete_after_unix_ms;
    } in
    if is_empty t.document.collection || is_empty t.document.key then returned s else elim state [
      | none ↦ raised
      | some text ↦
          if bytes_eq text (bytes "delete_pending")
          then returned (record s { delayed_delete = s.delayed_delete ++ timed ∷ [] })
          else returned
              (record s { pending = insert_or_assign (task_key t.document) timed s.pending })
    ]

-- The loop of RecoverTasksLocked, which an exception ends.
unfoldable pub recover_items : Clock → List TaskItem → Migration → Try Migration
recover_items now [] s = returned s
recover_items now (not_object ∷ rest) s = recover_items now rest s
recover_items now (wrong_type ∷ rest) s = raised
recover_items now (fields t state ∷ rest) s = elim (recover_item now t state s) [
  | raised ↦ raised
  | returned s' ↦ recover_items now rest s'
]

abbrev pub recover_file : Clock → TaskFile → Migration → Try (Status × Migration)
recover_file now not_json s = returned (internal (bytes "failed to parse migration task wal"), s)
recover_file now not_array s =
    returned (invalid_argument (bytes "migration task wal must contain a JSON array"), s)
recover_file now (items list) s =
    elim (recover_items now list (record s { pending = []; delayed_delete = [] })) [
      | raised ↦ raised
      | returned s' ↦ returned (ok_status, s')
    ]

-- RecoverTasksLocked()
unfoldable pub recover_tasks : (Bytes → TaskFile) → Clock → Migration → Try (Status × Migration)
recover_tasks read_items now s = elim s.file [
  | none ↦ returned (ok_status, s)
  | some text ↦ recover_file now (read_items text) s
]

-- The manager with its flags; `tasks` is what the worker changes.
pub record MigrationManager : Type 0 where
  pub enabled : Bool
  pub tasks : Migration
  pub running : Bool
  pub stopping : Bool
  pub scan_requested : Bool

abbrev pub with_state : Bytes → Migration → Migration
with_state text s = record s { progress = record s.progress { state = text } }

-- Start from the recovery on.
abbrev pub note_recovery : Status × Migration → Migration
note_recovery (st, s) = if is_ok st then s else record_migration_error s st

-- Start(); an exception of the recovery leaves it.
unfoldable pub start_migration :
    (Bytes → TaskFile) → Clock → MigrationManager → Try MigrationManager
start_migration read_items now m =
    if not m.enabled || m.running
    then returned m
    else elim (recover_tasks read_items now (record m.tasks {
      progress = record m.tasks.progress { enabled = true; state = bytes "idle" };
    })) [
      | raised ↦ raised
      | returned recovered ↦
          returned (record m { stopping = false; running = true; tasks = note_recovery recovered })
    ]

-- Stop(), after which the worker has returned
unfoldable pub stop_migration : MigrationManager → MigrationManager
stop_migration m =
    if m.running
    then record m {
      running = false;
      stopping = true;
      scan_requested = true;
      tasks = with_state (bytes "stopped") m.tasks;
    }
    else m

-- TriggerScan()
unfoldable pub trigger_scan : MigrationManager → MigrationManager
trigger_scan m = if m.enabled then record m { scan_requested = true } else m

-- Status(): the status with the numbers of the pending tasks and of the delayed deletions.
unfoldable pub migration_status : MigrationManager → MigrationStatus × ℕ × ℕ
migration_status m = (m.tasks.progress, length m.tasks.pending, length m.tasks.delayed_delete)

-- ApplyMigratedRecord(kv_store, embedding_service, vector_index, record, semantic)
module _ {Store World Vector : Type 0} (kv : KvStore Store) (services : Services World Vector) where
  abbrev pub index_migrated : DocumentRecord → World → Status × World
  index_migrated r w =
      let (embedding, w') = services.embed_text (r.title ++ bytes " " ++ r.body) w in
      elim embedding [ status st ↦ (st, w') | value vector ↦ services.upsert r vector w' ]

  unfoldable pub apply_migrated_record :
      DocumentRecord → Bool → Store → World → Status × Store × World
  apply_migrated_record r semantic s w =
      if is_empty r.collection || is_empty r.key
      then (invalid_argument (bytes "migrated record requires collection and key"), s, w)
      else (let (st, s') = kv.put r s in
          if is_ok st
          then (if semantic
              then (let (st', w') = index_migrated r w in (st', s', w'))
              else (ok_status, s', w))
          else (st, s', w))
