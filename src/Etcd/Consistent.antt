-- ===== src/Etcd/Consistent.antt =====
-- What EtcdServiceDiscovery of src/infra/etcd_discovery.cpp keeps in step: the nodes, the router and
-- the status.
use range_vec_kv.Base.{
  ℕ, ◌≡◌, ltb, refl, ap, sym, ◌∙◌, Bool, true, false, Option, none, some, List, [], All, length,
  arith, Bool-cases, inl, inr, if_true, if_false, subst,
}
use range_vec_kv.Base.Bytes.{Bytes}
use range_vec_kv.Status.{Status}
use range_vec_kv.Routing.{ClusterNode, Router}
use range_vec_kv.Etcd.State.{
  EtcdDiscoveryStatus, Discovery, record_success, record_error, keepalive_failed, restart_watch,
}
use range_vec_kv.Etcd.Session.{
  WatchEnd, waited, watch_threw, was_normal, record_watch_exception, set_watcher, end_round,
  stop_discovery,
}
use range_vec_kv.Etcd.Listed.{IsHealthy}

abbrev pub router_nodes : Option Router → Option (List ClusterNode)
router_nodes none = none
router_nodes (some r) = some r.nodes

pub record IsConsistent (d : Discovery) : Type 0 where
  pub healthy : All IsHealthy d.current_nodes
  pub routed :
      ltb 0 d.progress.ring_rebuild_count ≡ true
      → (router_nodes d.router ≡ some d.current_nodes)
        × (d.progress.known_node_count ≡ length d.current_nodes)
  pub kept_alive : ltb 0 d.progress.keepalive_error_count ≡ true → d.progress.degraded ≡ true
  pub quiet : d.progress.degraded ≡ false → d.progress.last_error ≡ []

-- A status that keeps the counters and is degraded.
pub record_error-IsConsistent :
    (text message : Bytes) (d : Discovery)
    → IsConsistent d
    → IsConsistent (record d { progress = record_error text message true d.progress })
unfolding record_error
record_error-IsConsistent text message d h = record {
  healthy = h.healthy;
  routed = h.routed;
  kept_alive = λ e. refl;
  quiet = λ e. absurd (ground arith);
}

pub record_success-IsConsistent :
    (now : ℕ) (text : Bytes) (d : Discovery)
    → IsConsistent d
    → IsConsistent (record d { progress = record_success now text d.progress })
unfolding record_success
record_success-IsConsistent now text d h = record {
  healthy = h.healthy;
  routed = h.routed;
  kept_alive = λ e. e;
  quiet = λ e. if_false (ltb 0 d.progress.keepalive_error_count) d.progress.last_error [] e;
}

pub keepalive_failed-IsConsistent :
    (message : Bytes) (d : Discovery) → IsConsistent d → IsConsistent (keepalive_failed message d)
unfolding keepalive_failed
keepalive_failed-IsConsistent message d h = record {
  healthy = h.healthy;
  routed = h.routed;
  kept_alive = λ e. refl;
  quiet = λ e. absurd (ground arith);
}

pub set_watcher-IsConsistent :
    (present : Bool) (d : Discovery)
    → IsConsistent d
    → IsConsistent (record d { client_state = set_watcher present d.client_state })
set_watcher-IsConsistent present d h = record {
  healthy = h.healthy;
  routed = h.routed;
  kept_alive = h.kept_alive;
  quiet = h.quiet;
}

pub restarted-IsConsistent :
    (normal : Bool) (s : EtcdDiscoveryStatus) (d : Discovery)
    → s.ring_rebuild_count ≡ d.progress.ring_rebuild_count
    → s.known_node_count ≡ d.progress.known_node_count
    → IsConsistent d
    → IsConsistent (record d {
      client_state = set_watcher false d.client_state;
      progress = restart_watch normal s;
    })
unfolding restart_watch
restarted-IsConsistent normal s d e f h = record {
  healthy = h.healthy;
  routed = λ g. let r = h.routed (sym (ap (ltb 0) e) ∙ g) in (r.0, f ∙ r.1);
  kept_alive = λ e. refl;
  quiet = λ e. absurd (ground arith);
}

pub end_round-IsConsistent :
    (ended : WatchEnd) (d : Discovery) → IsConsistent d → IsConsistent (end_round ended d)
unfolding end_round record_error
end_round-IsConsistent ended d h = elim (Bool-cases d.stopping) [
  | inl e ↦ subst IsConsistent (sym (if_true d.stopping _ _ e)) (set_watcher-IsConsistent false d h)
  | inr e ↦ subst IsConsistent (sym (if_false d.stopping _ _ e)) (by_end ended)
]
  where
    by_end :
        (w : WatchEnd)
        → IsConsistent (record d {
          client_state = set_watcher false d.client_state;
          progress = restart_watch (was_normal w) (record_watch_exception w d.progress);
        })
    by_end (waited b) = restarted-IsConsistent b d.progress d refl refl h
    by_end (watch_threw what) = restarted-IsConsistent false _ d refl refl h

pub stop_discovery-IsConsistent :
    (d : Discovery) → IsConsistent d → IsConsistent (stop_discovery d).1
unfolding stop_discovery
stop_discovery-IsConsistent d h = elim (Bool-cases d.stopping) [
  | inl e ↦ subst (λ (p : Status × Discovery). IsConsistent p.1) (sym (if_true d.stopping _ _ e)) h
  | inr e ↦
      subst (λ (p : Status × Discovery). IsConsistent p.1) (sym (if_false d.stopping _ _ e))
        (record {
          healthy = h.healthy;
          routed = h.routed;
          kept_alive = h.kept_alive;
          quiet = h.quiet;
        })
]
