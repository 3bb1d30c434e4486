-- ===== src/Etcd/Events.antt =====
-- The calls, rounds and callbacks of EtcdServiceDiscovery in src/infra/etcd_discovery.cpp, in any order.
use range_vec_kv.Base.{
  ℕ, ◌≡◌, ltb, refl, sym, Bool, true, false, not, ◌&&◌, Option, none, some, List, [], ◌∷◌, All,
  length, if◌then◌else◌, arith, Bool-cases, inl, inr, if_true, if_false, subst,
}
use range_vec_kv.Base.Bytes.{Bytes}
use range_vec_kv.Base.Int.{ℤ}
use range_vec_kv.Status.{Status, is_ok}
use range_vec_kv.Routing.{ClusterNode, Router, rebuild}
use range_vec_kv.Etcd.Values.{Json}
use range_vec_kv.Etcd.State.{
  Discovery, new_discovery, EtcdResponse, accepted, refused, set_ring_change_callback,
  keepalive_failed,
}
use range_vec_kv.Etcd.Session.{
  WatchEnd, set_watcher, end_round, stop_discovery, rebuild_router, rebuild_ring, client_of,
  Listing, StartAnswers, listed_nodes, take_listing, reload_nodes, note_reload, begin_round,
  watch_event, run_session, register_node, reset_for_start, take_lease, connect_client,
  start_discovery,
}
use range_vec_kv.Etcd.Listed.{IsHealthy, listed_nodes-All}
use range_vec_kv.Etcd.Consistent.{
  IsConsistent, router_nodes, record_error-IsConsistent, record_success-IsConsistent,
  keepalive_failed-IsConsistent, set_watcher-IsConsistent, end_round-IsConsistent,
  stop_discovery-IsConsistent,
}

no_router : {nodes : List ClusterNode} → none ≡ some nodes → ⊥
no_router e = cc

-- What happens to the service: a call, a step of WatchLoop, or a callback of the etcd client.
pub data EtcdEvent : Type 0 where
  start_called : ℕ → StartAnswers → Option Router → EtcdEvent
  stop_called : EtcdEvent
  callback_set : Bool → EtcdEvent
  round_begun : ℕ → Listing → EtcdEvent
  round_ended : WatchEnd → EtcdEvent
  watched : ℕ → EtcdResponse Listing → EtcdEvent
  keepalive_error : Bytes → EtcdEvent

note_reload-IsConsistent :
    (b : Bool) (p : Status × Discovery) → IsConsistent p.1 → IsConsistent (note_reload b p)
unfolding note_reload
note_reload-IsConsistent b (st, d) h = elim (Bool-cases (not (is_ok st) && not b)) [
  | inl e ↦ rw e (record_error-IsConsistent _ _ d h)
  | inr e ↦ rw e h
]

module _ (json : Json) (hash : Bytes → ℕ) where
  rebuild_ring-IsConsistent :
      (nodes : List ClusterNode) (d : Discovery)
      → All IsHealthy nodes
      → IsConsistent d
      → IsConsistent (rebuild_ring hash nodes d)
  unfolding rebuild_ring rebuild_router rebuild
  rebuild_ring-IsConsistent nodes d g h = by_router d.router h.routed
    where
      by_router :
          (o : Option Router)
          → (ltb 0 d.progress.ring_rebuild_count ≡ true
              → (router_nodes o ≡ some d.current_nodes)
                × (d.progress.known_node_count ≡ length d.current_nodes))
          → IsConsistent (elim o as (λ a. Discovery) [
            | none ↦ record d { current_nodes = nodes }
            | some r ↦ rebuild_router hash nodes r d
          ])
      by_router none f = record {
        healthy = g;
        routed = λ e. absurd (no_router (f e).0);
        kept_alive = h.kept_alive;
        quiet = h.quiet;
      }
      by_router (some r) f = record {
        healthy = g;
        routed = λ e. (refl, refl);
        kept_alive = h.kept_alive;
        quiet = h.quiet;
      }

  take_listing-IsConsistent :
      (now : ℕ) (listing : Listing) (d : Discovery)
      → IsConsistent d
      → IsConsistent (take_listing json hash now listing d).1
  unfolding take_listing
  take_listing-IsConsistent now (refused message) d h = h
  take_listing-IsConsistent now (accepted pairs) d h = record_success-IsConsistent now _ _ (
      rebuild_ring-IsConsistent (listed_nodes json d.prefix pairs) d
        (listed_nodes-All json d.prefix pairs) h)

  reload_nodes-IsConsistent :
      (now : ℕ) (listing : Listing) (d : Discovery)
      → IsConsistent d
      → IsConsistent (reload_nodes json hash now listing d).1
  unfolding reload_nodes
  reload_nodes-IsConsistent now listing d h = elim (Bool-cases (client_of d.client_state)) [
    | inl e ↦ rw e (take_listing-IsConsistent now listing d h)
    | inr e ↦ rw e h
  ]

  begin_round-IsConsistent :
      (now : ℕ) (listing : Listing) (d : Discovery)
      → IsConsistent d
      → IsConsistent (begin_round json hash now listing d)
  unfolding begin_round
  begin_round-IsConsistent now listing d h = elim (Bool-cases d.stopping) [
    | inl e ↦ subst IsConsistent (sym (if_true d.stopping _ _ e)) h
    | inr e ↦ subst IsConsistent (sym (if_false d.stopping _ _ e)) (
        watching (note_reload false (reload_nodes json hash now listing d))
          (note_reload-IsConsistent false _ (reload_nodes-IsConsistent now listing d h)))
  ]
    where
      watching :
          (e : Discovery)
          → IsConsistent e
          → IsConsistent (
              if e.stopping then e else record e { client_state = set_watcher true e.client_state })
      watching e g = elim (Bool-cases e.stopping) [
        | inl q ↦ subst IsConsistent (sym (if_true e.stopping _ _ q)) g
        | inr q ↦
            subst IsConsistent (sym (if_false e.stopping _ _ q)) (set_watcher-IsConsistent true e g)
      ]

  watch_event-IsConsistent :
      (now : ℕ) (response : EtcdResponse Listing) (d : Discovery)
      → IsConsistent d
      → IsConsistent (watch_event json hash now response d)
  unfolding watch_event
  watch_event-IsConsistent now (accepted listing) d h =
      note_reload-IsConsistent d.stopping _ (reload_nodes-IsConsistent now listing d h)
  watch_event-IsConsistent now (refused message) d h = elim (Bool-cases d.stopping) [
    | inl e ↦ subst IsConsistent (sym (if_true d.stopping _ _ e)) h
    | inr e ↦
        subst IsConsistent (sym (if_false d.stopping _ _ e)) (record_error-IsConsistent _ _ d h)
  ]

  start_discovery-IsConsistent :
      (now : ℕ) (answers : StartAnswers) (router : Option Router) (d : Discovery)
      → IsConsistent d
      → IsConsistent (start_discovery json hash now answers router d).1
  unfolding start_discovery connect_client take_lease register_node run_session
  start_discovery-IsConsistent now answers none d h = h
  start_discovery-IsConsistent now answers (some r) d h =
      by_connect answers.connect answers.lease answers.registered
    where
      reset :
          (e : Discovery)
          → All IsHealthy e.current_nodes
          → e.progress.ring_rebuild_count ≡ 0
          → e.progress.keepalive_error_count ≡ 0
          → e.progress.last_error ≡ []
          → IsConsistent e
      reset e a b c f = record {
        healthy = a;
        routed = λ g. absurd (ground arith);
        kept_alive = λ g. absurd (ground arith);
        quiet = λ g. f;
      }

      by_connect :
          (o : Option Bytes) (l : EtcdResponse ℤ) (g : Option Bytes)
          → IsConsistent
              (connect_client json hash now
                (record answers { lease = l; registered = g })
                (reset_for_start r d)
                o).1
      by_connect (some m) l g = record_error-IsConsistent _ _ _ (reset _ h.healthy refl refl refl)
      by_connect none (refused m) g =
          record_error-IsConsistent _ _ _ (reset _ h.healthy refl refl refl)
      by_connect none (accepted lease) (some m) =
          record_error-IsConsistent _ _ _ (reset _ h.healthy refl refl refl)
      by_connect none (accepted lease) none =
          record_success-IsConsistent now _ _
            (reload_nodes-IsConsistent now answers.listing _ (reset _ h.healthy refl refl refl))

  -- The service after an event.
  abbrev pub after : EtcdEvent → Discovery → Discovery
  after (start_called now answers router) d = (start_discovery json hash now answers router d).1
  after stop_called d = (stop_discovery d).1
  after (callback_set present) d = set_ring_change_callback present d
  after (round_begun now listing) d = begin_round json hash now listing d
  after (round_ended ended) d = end_round ended d
  after (watched now response) d = watch_event json hash now response d
  after (keepalive_error message) d = keepalive_failed message d

  unfoldable pub after_all : List EtcdEvent → Discovery → Discovery
  after_all [] d = d
  after_all (e ∷ es) d = after_all es (after e d)

  after-IsConsistent : (e : EtcdEvent) (d : Discovery) → IsConsistent d → IsConsistent (after e d)
  after-IsConsistent (start_called now answers router) d h =
      start_discovery-IsConsistent now answers router d h
  after-IsConsistent stop_called d h = stop_discovery-IsConsistent d h
  after-IsConsistent (callback_set present) d h = record {
    healthy = h.healthy;
    routed = h.routed;
    kept_alive = h.kept_alive;
    quiet = h.quiet;
  }
  after-IsConsistent (round_begun now listing) d h = begin_round-IsConsistent now listing d h
  after-IsConsistent (round_ended ended) d h = end_round-IsConsistent ended d h
  after-IsConsistent (watched now response) d h = watch_event-IsConsistent now response d h
  after-IsConsistent (keepalive_error message) d h = keepalive_failed-IsConsistent message d h

  keeps-IsConsistent :
      (events : List EtcdEvent) (d : Discovery) → IsConsistent d → IsConsistent (after_all events d)
  unfolding after_all
  keeps-IsConsistent [] d h = h
  keeps-IsConsistent (e ∷ es) d h = keeps-IsConsistent es (after e d) (after-IsConsistent e d h)

  -- After any calls, rounds and callbacks of the service that the constructor made, the current nodes
  -- have a host and a port and are marked as healthy; while the count of rebuilt rings is not zero, the
  -- router has just these nodes and the status reports their number; while the count of keep-alive
  -- errors is not zero, the service is degraded; and one that is not degraded reports no error.
  pub after_all-IsConsistent :
      (prefix : Bytes) (node : ClusterNode) (events : List EtcdEvent)
      → IsConsistent (after_all events (new_discovery prefix node))
  after_all-IsConsistent prefix node events =
      keeps-IsConsistent events (new_discovery prefix node) (record {
        healthy = tt;
        routed = λ e. absurd (ground arith);
        kept_alive = λ e. absurd (ground arith);
        quiet = λ e. refl;
      })
