-- ===== src/Migration/Tried.antt =====
-- ScanOnce of src/gateway/data_migration.cpp against one try of each pending task: which tasks stay,
-- which wait for their deletion, and what the counters say.
use range_vec_kv.Base.{◌+◌, ◌≡◌, ◌%◌, ◌^◌, List, ◌++◌, length}
use range_vec_kv.Base.Bytes.{Bytes}
use range_vec_kv.OrderedMap.{Map}
use range_vec_kv.Status.{Status}
use range_vec_kv.Migration.{Task, Migration}
use range_vec_kv.Migration.Tries.{Tries}

-- `r` is what the tries `x` of the tasks behind `d` make of `s`.
record Done {World : Type 0} (d : Map Task) (s : Migration) (x : Tries World)
    (r : Migration × World) : Type 0 where
  pub left : r.0.pending ≡ d ++ x.kept
  pub waits : r.0.delayed_delete ≡ s.delayed_delete ++ x.waiting
  pub counted_failed : r.0.progress.failed ≡ (s.progress.failed + x.given_up) % 2 ^ 64
  pub counted_succeeded :
      r.0.progress.succeeded ≡ (s.progress.succeeded + length x.waiting) % 2 ^ 64
  pub same_world : r.1 ≡ x.world
