-- ===== src/Etcd/State.antt =====
-- What EtcdServiceDiscovery of src/infra/etcd_discovery.cpp keeps, and the changes of its status.
use range_vec_kv.Base.{
  ℕ, ◌+◌, ◌*◌, ◌%◌, ◌^◌, min, ltb, Bool, true, false, Option, none, List, [], ◌++◌, if◌then◌else◌,
}
use range_vec_kv.Base.Bytes.{Bytes, bytes}
use range_vec_kv.Base.Int.{ℤ}
use range_vec_kv.Document.Mutation.{is_empty}
use range_vec_kv.Routing.{ClusterNode, Router}

pub record EtcdDiscoveryStatus : Type 0 where
  pub available : Bool
  pub running : Bool
  pub degraded : Bool
  pub state : Bytes
  pub last_error : Bytes
  pub lease_id : ℤ
  pub watch_restart_count : ℕ
  pub keepalive_error_count : ℕ
  pub ring_rebuild_count : ℕ
  pub known_node_count : ℕ
  pub last_success_unix_ms : ℕ

-- EtcdDiscoveryStatus{}
abbrev pub no_status : EtcdDiscoveryStatus
no_status = record {
  available = false;
  running = false;
  degraded = false;
  state = bytes "unavailable";
  last_error = [];
  lease_id = ℤ.pos 0;
  watch_restart_count = 0;
  keepalive_error_count = 0;
  ring_rebuild_count = 0;
  known_node_count = 0;
  last_success_unix_ms = 0;
}

-- EtcdClientState: which of its objects exist.
pub record EtcdClientState : Type 0 where
  pub has_client : Bool
  pub has_keep_alive : Bool
  pub has_watcher : Bool
  pub lease_id : ℤ

-- `notified` counts the calls of the ring change callback.
pub record Discovery : Type 0 where
  pub prefix : Bytes
  pub local_node : ClusterNode
  pub router : Option Router
  pub current_nodes : List ClusterNode
  pub stopping : Bool
  pub client_state : Option EtcdClientState
  pub progress : EtcdDiscoveryStatus
  pub has_callback : Bool
  pub notified : ℕ

-- What the constructor makes.
abbrev pub new_discovery : Bytes → ClusterNode → Discovery
new_discovery prefix node = record {
  prefix = prefix;
  local_node = node;
  router = none;
  current_nodes = [];
  stopping = false;
  client_state = none;
  progress = no_status;
  has_callback = false;
  notified = 0;
}

-- An etcd::Response: its value, or the error message.
pub data EtcdResponse (A : Type 0) : Type 0 where
  accepted : A → EtcdResponse A
  refused : Bytes → EtcdResponse A

-- SetRingChangeCallback
abbrev pub set_ring_change_callback : Bool → Discovery → Discovery
set_ring_change_callback present d = record d { has_callback = present }

-- RecordSuccess(state)
unfoldable pub record_success : ℕ → Bytes → EtcdDiscoveryStatus → EtcdDiscoveryStatus
record_success now text s =
    let degraded = ltb 0 s.keepalive_error_count in
    record s {
      available = true;
      running = true;
      degraded = degraded;
      state = text;
      last_error = if degraded then s.last_error else [];
      last_success_unix_ms = now;
    }

-- RecordError(state, message, degraded)
unfoldable pub record_error : Bytes → Bytes → Bool → EtcdDiscoveryStatus → EtcdDiscoveryStatus
record_error text message degraded s = record s {
  available = true;
  running = true;
  degraded = degraded;
  state = text;
  last_error = message;
}

-- The callback that Start gives to etcd::KeepAlive.
unfoldable pub keepalive_failed : Bytes → Discovery → Discovery
keepalive_failed message d = record d {
  progress = record d.progress {
    degraded = true;
    state = bytes "degraded";
    last_error = bytes "etcd keepalive error: " ++ message;
    keepalive_error_count = (d.progress.keepalive_error_count + 1) % 2 ^ 64;
  };
}

-- The end of a round of WatchLoop that the service's stop did not cause.
unfoldable pub restart_watch : Bool → EtcdDiscoveryStatus → EtcdDiscoveryStatus
restart_watch normal_stop s = record s {
  watch_restart_count = (s.watch_restart_count + 1) % 2 ^ 64;
  degraded = true;
  state = if normal_stop then bytes "watch_restarting" else bytes "watch_reconnecting";
  last_error =
      if is_empty s.last_error
      then (if normal_stop then bytes "etcd watch stopped" else bytes "etcd watch disconnected")
      else s.last_error;
}

-- The milliseconds to wait after a round that waited `backoff`.
abbrev pub next_backoff : ℕ → ℕ
next_backoff backoff = min (backoff * 2) 5000
