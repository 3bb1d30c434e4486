-- ===== src/Migration/Worker.antt =====
-- The worker of DataMigrationManager (src/gateway/data_migration.cpp): the search of ScanOnce for
-- documents of other owners, page by page, and ProcessDueDeletes.
use range_vec_kv.Base.{
  ℕ, zero, suc, ltb, Bool, true, false, Option, none, some, List, [], ◌∷◌, length, if◌then◌else◌,
}
use range_vec_kv.Base.Bytes.{Bytes, bytes}
use range_vec_kv.OrderedMap.{find, insert_or_assign}
use range_vec_kv.Status.{Status, StatusOr, value, status, ok_status, is_ok}
use range_vec_kv.Document.{DocumentRecord}
use range_vec_kv.Document.Mutation.{is_empty}
use range_vec_kv.WalStore.{Io}
use range_vec_kv.Routing.{RouteDecision}
use range_vec_kv.Gateway.{KvStore, next_key, last_key_of}
use range_vec_kv.Migration.{
  Task, Migration, MigrationConfig, Clock, task_key, record_migration_error, keep_tasks,
  migrate_pending,
}
use range_vec_kv.Migration.Service.{is_remote, new_task, split_due, with_state}

-- A deletion that failed is recorded.
abbrev pub note_deletion : Status → Migration → Migration
note_deletion st s = if is_ok st then s else record_migration_error s st

module _ (route_of : Bytes → Bytes → RouteDecision) {Store World : Type 0} (kv : KvStore Store)
    (remove_vector : Bytes → Bytes → World → Status × World) where
  -- DeleteLocalIfStillRemote from the answer of Delete on.
  unfoldable pub after_delete : Task → World → Status × Store → Status × Store × World
  after_delete t w (st, store) =
      if is_ok st
      then (if t.semantic
          then (let (st', w') = remove_vector t.document.collection t.document.key w in
              (st', store, w'))
          else (ok_status, store, w))
      else (st, store, w)

  -- DeleteLocalIfStillRemote(task)
  unfoldable pub delete_local_if_still_remote : Task → Store → World → Status × Store × World
  delete_local_if_still_remote t store w =
      if is_remote (route_of t.document.collection t.document.key)
      then after_delete t w (kv.delete t.document.collection t.document.key store)
      else (ok_status, store, w)

  -- The loop of ProcessDueDeletes over the tasks that are due.
  unfoldable pub delete_due : List Task → Migration → Store → World → Migration × Store × World
  delete_due [] s store w = (s, store, w)
  delete_due (t ∷ due) s store w =
      let (st, store', w') = delete_local_if_still_remote t store w in
      delete_due due (note_deletion st s) store' w'

  -- ProcessDueDeletes(); `dump` and `io` are the JSON text of the task file
  -- and the answer of the file system.
  unfoldable pub process_due_deletes :
      (List (Bytes × Task) → Bytes)
      → Clock
      → Io
      → Migration
      → Store
      → World
      → Migration × Store × World
  process_due_deletes dump now io s store w =
      let (due, later) = split_due now.steady_ms s.delayed_delete in
      let (s', store', w') = delete_due due (record s { delayed_delete = later }) store w in
      (if is_empty due then s' else keep_tasks dump io s', store', w')

-- `dump` and `io` are the JSON text of the task file and the answers of the file system.
module _ (dump : List (Bytes × Task) → Bytes) (route_of : Bytes → Bytes → RouteDecision) where
  unfoldable pub add_task :
      MigrationConfig → Clock → (Bytes → Io) → DocumentRecord → Migration → Migration
  add_task config now io r s = elim (find (task_key r) s.pending) [
    | some t ↦ s
    | none ↦ keep_tasks dump (io (task_key r)) (record s {
      pending =
          insert_or_assign (task_key r)
            (new_task config now r (route_of r.collection r.key).primary) s.pending;
    })
  ]

  -- The loop over the documents of a page.
  unfoldable pub scan_page :
      MigrationConfig → Clock → (Bytes → Io) → List DocumentRecord → Migration → Migration
  scan_page config now io [] s = s
  scan_page config now io (r ∷ rest) s =
      if is_remote (route_of r.collection r.key)
      then scan_page config now io rest (add_task config now io r s)
      else scan_page config now io rest s

  module _ {Store : Type 0} (kv : KvStore Store) (batch_size : ℕ) (store : Store) where
    -- The loop over the pages of a collection. False means that ScanOnce returns; `none` that the fuel
    -- ran out.
    unfoldable pub scan_pages :
        ℕ
        → MigrationConfig
        → Clock
        → (Bytes → Io)
        → Bytes
        → Bytes
        → Migration
        → Option (Bool × Migration)
    scan_pages zero config now io collection begin_key s = none
    scan_pages (suc fuel) config now io collection begin_key s =
        elim (kv.range collection begin_key [] batch_size store) [
          | status st ↦ some (false, record_migration_error s st)
          | value page ↦
              let rest =
                scan_pages fuel config now io collection (next_key (last_key_of page))
                  (scan_page config now io page s) in
              if is_empty page
              then some (true, s)
              else (if ltb (length page) batch_size
                  then some (true, scan_page config now io page s)
                  else rest)
        ]

    -- The loop over the collections.
    unfoldable pub scan_collections :
        ℕ
        → MigrationConfig
        → Clock
        → (Bytes → Io)
        → List Bytes
        → Migration
        → Option (Bool × Migration)
    scan_collections fuel config now io [] s = some (true, s)
    scan_collections fuel config now io (collection ∷ rest) s =
        elim (scan_pages fuel config now io collection [] s) [
          | none ↦ none
          | some (false, s') ↦ some (false, s')
          | some (true, s') ↦ scan_collections fuel config now io rest s'
        ]

    -- ScanOnce(), with what Collections() of the store answers.
    unfoldable pub scan_once :
        {World : Type 0}
        → (Task → World → Status × World)
        → ℕ
        → MigrationConfig
        → Clock
        → (Bytes → Io)
        → StatusOr (List Bytes)
        → Migration
        → World
        → Option (Migration × World)
    scan_once post fuel config now io (status st) s w =
        some (record_migration_error (with_state (bytes "scanning") s) st, w)
    scan_once post fuel config now io (value collections) s w =
        elim (scan_collections fuel config now io collections (with_state (bytes "scanning") s)) [
          | none ↦ none
          | some (false, s') ↦ some (s', w)
          | some (true, s') ↦ some (migrate_pending dump post config now io s' w)
        ]
