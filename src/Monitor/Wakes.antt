-- ===== src/Monitor/Wakes.antt =====
-- Where a round goes on after the upstream is looked at, repmgrd is not asleep.
use repmgr.Base.{
  ◌≡◌, refl, ap, ℤ, ◌==ℤ◌, Bool, true, false, not, ◌&&◌, ◌||◌, inl, inr, Bool-cases, List, [], ◌∷◌,
  All, if◌then◌else◌, arith, ◌≢◌,
}
use repmgr.Nodes.{
  ServerType, NodeStatus, node_status_unknown, node_status_up, node_status_down, ms_degraded,
  unknown_node_id, node_status_shutting_down, node_status_unclean_shutdown, node_status_rejected,
  election_rerun_notification,
}
use repmgr.Failover.Primary.{Failover}
use repmgr.Failover.Cascade.{Cascade}
use repmgr.Failover.Result.{Answered, do_primary_failover-Answered}
use repmgr.Reconnect.Settled.{up_or_down, try_primary_reconnect-Settles, try_reconnect-Settles}
use repmgr.Monitor.Upstream.{check_upstream_connection}
use repmgr.Monitor.State.{
  Monitor, MonitorSettings, RoundWorld, Effect, set_upstream_last_seen, Phase, proceed, to_loop,
  leave, terminate, with_status, with_monitoring,
}
use repmgr.Monitor.Lost.{
  is_up, is_primary_type, after_failover, after_cascade, fail_over, upstream_down,
  upstream_recovered, by_status, after_rerun, heed_reconnect, lose_upstream, check_upstream,
  attempt_primary, attempt_other, primary_failover,
}
use repmgr.Monitor.Local.{is_standby_type}
use repmgr.Monitor.Tail.{asleep}

-- The upstream is a primary or a standby.
abbrev pub is_upstream_type : ServerType → Bool
is_upstream_type type = is_primary_type type || is_standby_type type

-- Where the round goes on, repmgrd is not asleep.
abbrev pub Wakes : Phase → Type 0
Wakes (proceed m effects) = asleep m ≡ false
Wakes (to_loop m effects) = asleep m ≡ false
Wakes (leave m effects) = Unit
Wakes (terminate effects) = Unit

pub Wakes-if : (t : Bool) (x y : Phase) → Wakes x → Wakes y → Wakes (if t then x else y)
Wakes-if true x y hx hy = hx
Wakes-if false x y hx hy = hy

-- The part of the round after a failover or the attempts to reconnect has something to go by.
abbrev Decided : Monitor → Type 0
Decided m =
    (not (asleep m)
      || (up_or_down m.daemon.upstream_node_info.node_status
          && is_upstream_type m.daemon.upstream_node_info.type))
    ≡ true

module _ (settings : MonitorSettings) (w : RoundWorld)
    (known : All
      (λ n. n.node_id ≢ unknown_node_id)
      w.cascade.around.election.active_sibling_nodes) where
  after_failover-Wakes :
      (m : Monitor) (before : List Effect) (f : Failover)
      → Answered settings.failover w.cascade.around f
      → Wakes (after_failover settings w m before f)
  unfolding after_failover
  after_failover-Wakes m before f answered = ground (arith, answered)

  primary_failover-Wakes :
      (m : Monitor) (before : List Effect)
      → Wakes (after_failover settings w m before (primary_failover settings w m))
  primary_failover-Wakes m before =
      after_failover-Wakes m before (primary_failover settings w m)
        (do_primary_failover-Answered settings.failover w.cascade.around m.daemon known)

  after_cascade-Wakes :
      (m : Monitor) (before : List Effect) (c : Cascade)
      → Wakes (after_cascade settings w m before c)
  unfolding after_cascade
  after_cascade-Wakes m before c = ground arith

  fail_over-Wakes :
      (m : Monitor) (before : List Effect) (type : ServerType)
      → (not (asleep m) || is_upstream_type type) ≡ true
      → Wakes (fail_over settings w m before type)
  unfolding fail_over
  fail_over-Wakes m before ServerType.primary h = primary_failover-Wakes m before
  fail_over-Wakes m before ServerType.standby h = after_cascade-Wakes m before _
  fail_over-Wakes m before ServerType.witness h = ground arith
  fail_over-Wakes m before ServerType.unknown h = ground arith

  upstream_down-Wakes :
      (m : Monitor) (before : List Effect)
      → (not (asleep m) || is_upstream_type m.daemon.upstream_node_info.type) ≡ true
      → Wakes (upstream_down settings w m before)
  unfolding upstream_down
  upstream_down-Wakes m before h =
      Wakes-if _ (proceed (with_monitoring m ms_degraded) before) _ (ground arith)
        (fail_over-Wakes m before m.daemon.upstream_node_info.type h)

  upstream_recovered-Wakes :
      (m : Monitor) (before : List Effect)
      → asleep m ≡ false
      → Wakes (upstream_recovered settings w m before)
  unfolding upstream_recovered
  upstream_recovered-Wakes m before h = ground arith

  undecided :
      (m : Monitor)
      → Decided m
      → up_or_down m.daemon.upstream_node_info.node_status ≡ false
      → asleep m ≡ false
  undecided m h e = ground (arith, h, e)

  tried-Decided :
      (m : Monitor)
      → up_or_down m.daemon.upstream_node_info.node_status ≡ true
      → is_upstream_type m.daemon.upstream_node_info.type ≡ true
      → Decided m
  tried-Decided m tried type = ground (arith, tried, type)

  by_status-Wakes :
      (m : Monitor) (before : List Effect) (status : NodeStatus)
      → m.daemon.upstream_node_info.node_status ≡ status
      → Decided m
      → Wakes (by_status settings w m before status)
  unfolding by_status
  by_status-Wakes m before node_status_up e h = upstream_recovered-Wakes m before (rw e refl)
  by_status-Wakes m before node_status_down e h = upstream_down-Wakes m before (ground (arith, h))
  by_status-Wakes m before node_status_unknown e h = undecided m h (ap up_or_down e)
  by_status-Wakes m before node_status_shutting_down e h = undecided m h (ap up_or_down e)
  by_status-Wakes m before node_status_unclean_shutdown e h = undecided m h (ap up_or_down e)
  by_status-Wakes m before node_status_rejected e h = undecided m h (ap up_or_down e)

  after_rerun-Wakes : (p : Phase) → Wakes p → Wakes (after_rerun settings w p)
  unfolding after_rerun
  after_rerun-Wakes (proceed m effects) h =
      by_status-Wakes m effects m.daemon.upstream_node_info.node_status refl (rw h refl)
  after_rerun-Wakes (to_loop m effects) h = h
  after_rerun-Wakes (leave m effects) h = h
  after_rerun-Wakes (terminate effects) h = h

  heed_reconnect-Wakes :
      (m : Monitor) (id : ℤ)
      → ((id ==ℤ unknown_node_id) ≡ true → Decided m)
      → Wakes (heed_reconnect settings w m id)
  unfolding heed_reconnect
  heed_reconnect-Wakes m id decided =
      Wakes-if (id ==ℤ election_rerun_notification) _ _
        (after_rerun-Wakes _ (primary_failover-Wakes m []))
        (elim (Bool-cases (id ==ℤ unknown_node_id)) [
          | inl unknown ↦ rw unknown (by_status-Wakes m [] _ refl (decided unknown))
          | inr told ↦ rw told tt
        ])

  lose_upstream-Wakes :
      (m : Monitor)
      → is_upstream_type m.daemon.upstream_node_info.type ≡ true
      → Wakes (lose_upstream settings w m)
  unfolding lose_upstream
  lose_upstream-Wakes m h =
      let first = attempt_primary settings w in
      let other = attempt_other settings w in
      let primary_tried = record (with_status m first.node_status) {
        primary_node_id = first.new_primary_node_id;
      } in
      let other_tried = with_status m other.node_status in
      let settles =
        try_primary_reconnect-Settles w.attempts settings.reconnect_interval node_status_unknown
          settings.reconnect_attempts in
      let settles_other =
        try_reconnect-Settles w.attempts settings.reconnect_interval node_status_unknown
          settings.reconnect_attempts in
      Wakes-if (is_primary_type m.daemon.upstream_node_info.type)
        (heed_reconnect settings w primary_tried first.new_primary_node_id)
        (by_status settings w other_tried [] other.node_status)
        (heed_reconnect-Wakes primary_tried first.new_primary_node_id
          (λ unknown. tried-Decided primary_tried (ground (arith, settles, unknown)) h))
        (by_status-Wakes other_tried [] other.node_status refl
          (tried-Decided other_tried settles_other h))

  pub check_upstream-Wakes :
      (m : Monitor)
      → is_upstream_type m.daemon.upstream_node_info.type ≡ true
      → asleep m ≡ false
      → Wakes (check_upstream settings w m)
  unfolding check_upstream
  check_upstream-Wakes m h awake =
      let stay = proceed m [] in
      let up = is_up m.daemon.upstream_node_info.node_status in
      Wakes-if (check_upstream_connection settings.connection_check_type w.probe).result
        (proceed m (set_upstream_last_seen m.daemon.upstream_node_info.node_id ∷ []))
        (if up then lose_upstream settings w m else stay) awake
        (Wakes-if up (lose_upstream settings w m) stay (lose_upstream-Wakes m h) awake)
