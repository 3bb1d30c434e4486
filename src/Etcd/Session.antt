-- ===== src/Etcd/Session.antt =====
-- The operations of EtcdServiceDiscovery of src/infra/etcd_discovery.cpp, with the answers of the
-- etcd client as arguments. A time-out or a wait changes nothing. Each operation is one step, also
-- ReloadNodes and Start, which lock the nodes, the router and the status one after another: what a
-- callback of the keep-alive does between these locks is not modelled, nor is a second Start while
-- the watch thread runs, which ends the program.
use range_vec_kv.Base.{
  ℕ, ◌+◌, ◌%◌, ◌^◌, not, ◌&&◌, Bool, true, false, Option, none, some, List, [], ◌∷◌, ◌++◌, length,
  drop, if◌then◌else◌,
}
use range_vec_kv.Base.Bytes.{Bytes, bytes}
use range_vec_kv.Base.Int.{ℤ}
use range_vec_kv.Status.{
  Status, value, status, ok_status, is_ok, invalid_argument, unavailable, to_string,
}
use range_vec_kv.Codec.{has_prefix}
use range_vec_kv.Routing.{ClusterNode, Router, rebuild}
use range_vec_kv.Etcd.Values.{Json, parse_etcd_node_value}
use range_vec_kv.Etcd.State.{
  EtcdDiscoveryStatus, no_status, EtcdClientState, Discovery, EtcdResponse, record_success,
  record_error, restart_watch, accepted, refused,
}

-- How the watcher's Wait ends, or the exception of the round.
pub data WatchEnd : Type 0 where
  waited : Bool → WatchEnd
  watch_threw : Bytes → WatchEnd

abbrev pub was_normal : WatchEnd → Bool
was_normal (waited b) = b
was_normal (watch_threw what) = false

abbrev pub record_watch_exception : WatchEnd → EtcdDiscoveryStatus → EtcdDiscoveryStatus
record_watch_exception (waited b) s = s
record_watch_exception (watch_threw what) s =
    record_error (bytes "degraded") (bytes "etcd watch loop failed: " ++ what) true s

abbrev pub set_watcher : Bool → Option EtcdClientState → Option EtcdClientState
set_watcher present none = none
set_watcher present (some c) = some (record c { has_watcher = present })

-- A round of WatchLoop from the end of Wait on.
unfoldable pub end_round : WatchEnd → Discovery → Discovery
end_round ended d =
    let closed = set_watcher false d.client_state in
    if d.stopping then record d { client_state = closed } else record d {
      client_state = closed;
      progress = restart_watch (was_normal ended) (record_watch_exception ended d.progress);
    }

-- Stop()
unfoldable pub stop_discovery : Discovery → Status × Discovery
stop_discovery d = if d.stopping then (ok_status, d) else (
  ok_status,
  record d {
    stopping = true;
    client_state = none;
    progress = record d.progress { running = false; state = bytes "stopped" };
  },
)

-- RebuildRing(nodes), where there is a router, after the nodes are kept.
unfoldable pub rebuild_router : (Bytes → ℕ) → List ClusterNode → Router → Discovery → Discovery
rebuild_router hash nodes r d = record d {
  current_nodes = nodes;
  router = some (rebuild hash r nodes);
  progress = record d.progress {
    ring_rebuild_count = (d.progress.ring_rebuild_count + 1) % 2 ^ 64;
    known_node_count = length nodes;
  };
  notified = if d.has_callback then d.notified + 1 else d.notified;
}

unfoldable pub rebuild_ring : (Bytes → ℕ) → List ClusterNode → Discovery → Discovery
rebuild_ring hash nodes d = elim d.router [
  | none ↦ record d { current_nodes = nodes }
  | some r ↦ rebuild_router hash nodes r d
]

abbrev pub client_of : Option EtcdClientState → Bool
client_of none = false
client_of (some c) = c.has_client

abbrev pub Listing : Type 0
Listing = EtcdResponse (List (Bytes × Bytes))

-- What the etcd client answers to Start: `connect` is the exception of its constructor, `registered`
-- the error of set.
pub record StartAnswers : Type 0 where
  pub connect : Option Bytes
  pub lease : EtcdResponse ℤ
  pub registered : Option Bytes
  pub listing : Listing

-- A return of Start with an error, which is also recorded.
abbrev pub fail_start : Bytes → Discovery → Status × Discovery
fail_start message d = (
  unavailable message,
  record d { progress = record_error (bytes "unavailable") message true d.progress },
)

abbrev pub client_with : Bool → Bool → ℤ → Option EtcdClientState
client_with has_client has_keep_alive lease = some (record {
  has_client = has_client;
  has_keep_alive = has_keep_alive;
  has_watcher = false;
  lease_id = lease;
})

-- Start up to the constructor of the client.
abbrev pub reset_for_start : Router → Discovery → Discovery
reset_for_start r d = record d {
  stopping = false;
  router = some r;
  client_state = client_with false false (ℤ.pos 0);
  progress = record no_status { available = true; state = bytes "starting" };
}

-- A reload that failed is recorded, in the callback of the watcher unless the service stops.
unfoldable pub note_reload : Bool → Status × Discovery → Discovery
note_reload quiet (st, d) =
    if not (is_ok st) && not quiet
    then record d { progress = record_error (bytes "degraded") (to_string st) true d.progress }
    else d

module _ (json : Json) where
  -- The loop of ReloadNodes over the keys and values.
  unfoldable pub listed_nodes : Bytes → List (Bytes × Bytes) → List ClusterNode
  listed_nodes prefix [] = []
  listed_nodes prefix ((key, text) ∷ rest) =
      let others = listed_nodes prefix rest in
      if has_prefix prefix key
      then elim (parse_etcd_node_value json (drop (length prefix) key) text) [
        | status st ↦ others
        | value n ↦ record n { healthy = true } ∷ others
      ]
      else others

module _ (json : Json) (hash : Bytes → ℕ) where
  -- ReloadNodes on the answer of the client.
  unfoldable pub take_listing : ℕ → Listing → Discovery → Status × Discovery
  take_listing now (refused message) d =
      (unavailable (bytes "failed to list etcd prefix " ++ d.prefix ++ bytes ": " ++ message), d)
  take_listing now (accepted pairs) d =
      let e = rebuild_ring hash (listed_nodes json d.prefix pairs) d in
      (ok_status, record e { progress = record_success now (bytes "running") e.progress })

  -- ReloadNodes()
  unfoldable pub reload_nodes : ℕ → Listing → Discovery → Status × Discovery
  reload_nodes now listing d =
      if client_of d.client_state
      then take_listing now listing d
      else (unavailable (bytes "etcd client is not initialized"), d)

  -- A round of WatchLoop up to the creation of the watcher.
  unfoldable pub begin_round : ℕ → Listing → Discovery → Discovery
  begin_round now listing d =
      if d.stopping
      then d
      else (let e = note_reload false (reload_nodes now listing d) in
          if e.stopping then e else record e { client_state = set_watcher true e.client_state })

  -- The callback of the watcher: a response that is an error, or a change that leads to a reload.
  unfoldable pub watch_event : ℕ → EtcdResponse Listing → Discovery → Discovery
  watch_event now (refused message) d = if d.stopping then d else record d {
    progress =
        record_error (bytes "degraded") (bytes "etcd watch error: " ++ message) true d.progress;
  }
  watch_event now (accepted listing) d = note_reload d.stopping (reload_nodes now listing d)

  -- Start from the keep-alive object on; that the initial reload failed is only logged.
  unfoldable pub run_session : ℕ → Listing → ℤ → Discovery → Status × Discovery
  run_session now listing lease d =
      let (st, e) =
        reload_nodes now listing (record d { client_state = client_with true true lease }) in
      (ok_status, record e { progress = record_success now (bytes "running") e.progress })

  -- Start from the answer to set on.
  unfoldable pub register_node : ℕ → Option Bytes → Listing → ℤ → Discovery → Status × Discovery
  register_node now (some message) listing lease d =
      fail_start (bytes "failed to register node in etcd: " ++ message) d
  register_node now none listing lease d = run_session now listing lease d

  -- Start from the answer to leasegrant on.
  unfoldable pub take_lease : ℕ → StartAnswers → Discovery → EtcdResponse ℤ → Status × Discovery
  take_lease now answers d (refused message) =
      fail_start (bytes "failed to grant etcd lease: " ++ message)
        (record d { client_state = client_with true false (ℤ.pos 0) })
  take_lease now answers d (accepted lease) =
      register_node now answers.registered answers.listing lease (record d {
        client_state = client_with true false lease;
        progress = record d.progress { lease_id = lease };
      })

  unfoldable pub connect_client : ℕ → StartAnswers → Discovery → Option Bytes → Status × Discovery
  connect_client now answers d (some message) =
      fail_start (bytes "failed to connect to etcd: " ++ message) d
  connect_client now answers d none = take_lease now answers d answers.lease

  -- Start(router)
  unfoldable pub start_discovery : ℕ → StartAnswers → Option Router → Discovery → Status × Discovery
  start_discovery now answers none d = (invalid_argument (bytes "router cannot be null"), d)
  start_discovery now answers (some r) d =
      connect_client now answers (reset_for_start r d) answers.connect
