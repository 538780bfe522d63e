-- ===== src/Monitor/Watchful.antt =====
-- A standby's repmgrd goes on watching its upstream.
use repmgr.Base.{
  ◌≡◌, refl, ◌∙◌, ap, ℤ, true, false, Option, none, some, List, [], ◌∷◌, All, if◌then◌else◌, arith,
  ◌≢◌,
}
use repmgr.Nodes.{
  NodeInfo, node_status_up, MonitoringState, ms_normal, ms_degraded, unknown_node_id,
}
use repmgr.Election.Siblings.{Daemon}
use repmgr.Failover.Steps.{follow_new_primary, run_follow, finish_follow}
use repmgr.Monitor.Upstream.{check_upstream_connection}
use repmgr.Monitor.State.{
  Monitor, MonitorSettings, RoundWorld, Effect, Phase, proceed, to_loop, leave, terminate, Next,
  go_on, restart, terminated, with_status, with_monitoring, with_daemon,
}
use repmgr.Monitor.Lost.{is_primary_type, check_upstream}
use repmgr.Monitor.Degraded.{
  find_primary, follow_found, look_for_primary, complete_promotion, local_is_primary,
  monitor_degraded, by_monitoring_state, refresh,
}
use repmgr.Monitor.Local.{is_degraded, check_local}
use repmgr.Monitor.Round.{finish, go_through, monitor_round}
use repmgr.Monitor.Tail.{asleep, Fares, check_local-Fares}
use repmgr.Monitor.Wakes.{is_upstream_type, Wakes, Wakes-if, check_upstream-Wakes}

-- Effects are of no account.
abbrev Anything : Effect → Type 0
Anything e = true ≡ true

-- The loop is left, or repmgrd watches its upstream.
abbrev pub Watches : Next → Type 0
Watches (go_on m effects) = asleep m ≡ false
Watches (restart m effects) = Unit
Watches (terminated effects) = Unit

module _ (settings : MonitorSettings) (w : RoundWorld)
    (known : All
      (λ n. n.node_id ≢ unknown_node_id)
      w.cascade.around.election.active_sibling_nodes) where
  watching : (m : Monitor) → is_degraded m.daemon.monitoring_state ≡ true → asleep m ≡ false
  watching m h = ground (arith, h)

  keeps_state :
      (daemon : Daemon) (id : ℤ)
      → (follow_new_primary settings.failover w.cascade.around daemon id).daemon.monitoring_state
        ≡ daemon.monitoring_state
  unfolding follow_new_primary run_follow finish_follow
  keeps_state daemon id = ground arith

  refresh-degraded :
      (m : Monitor) (o : Option NodeInfo)
      → is_degraded (refresh m o).daemon.monitoring_state ≡ is_degraded m.daemon.monitoring_state
  refresh-degraded m none = refl
  refresh-degraded m (some local) = refl

  follow_found-Wakes :
      (m : Monitor) (before : List Effect) (o : Option NodeInfo)
      → is_degraded m.daemon.monitoring_state ≡ true
      → Wakes (follow_found settings w m before o)
  unfolding follow_found
  follow_found-Wakes m before none h = watching m h
  follow_found-Wakes m before (some node) h =
      watching
        (with_daemon m
          (follow_new_primary settings.failover w.cascade.around m.daemon node.node_id).daemon)
        (ap is_degraded (keeps_state m.daemon node.node_id) ∙ h)

  look_for_primary-Wakes :
      (m : Monitor) (before : List Effect)
      → is_degraded m.daemon.monitoring_state ≡ true
      → Wakes (look_for_primary settings w m before)
  unfolding look_for_primary
  look_for_primary-Wakes m before h =
      let found = find_primary m.daemon.local_node_info.node_id w.sibling_peer w.siblings in
      Wakes-if _ (follow_found settings w m before found) (to_loop m before)
        (follow_found-Wakes m before found h) (watching m h)

  local_is_primary-Wakes :
      (m : Monitor) (before : List Effect)
      → is_degraded m.daemon.monitoring_state ≡ true
      → Wakes (local_is_primary settings w m before)
  unfolding local_is_primary complete_promotion
  local_is_primary-Wakes m before h =
      let fresh = refresh m w.refreshed_record in
      let look = look_for_primary settings w fresh before in
      let gone = leave (with_monitoring fresh ms_normal) before in
      Wakes-if _ (complete_promotion settings w m before)
        (if is_primary_type fresh.daemon.local_node_info.type then gone else look) tt
        (Wakes-if _ gone look tt
          (look_for_primary-Wakes fresh before (refresh-degraded m w.refreshed_record ∙ h)))

  monitor_degraded-Wakes :
      (m : Monitor) (before : List Effect)
      → is_degraded m.daemon.monitoring_state ≡ true
      → Wakes (monitor_degraded settings w m before)
  unfolding monitor_degraded
  monitor_degraded-Wakes m before h =
      let restored = to_loop (with_monitoring (with_status m node_status_up) ms_normal) before in
      let stay = to_loop m before in
      let promoted = local_is_primary settings w m before in
      let look = look_for_primary settings w m before in
      let reached =
        (check_upstream_connection settings.connection_check_type w.degraded_probe).result in
      let lost = if w.local_promoted then promoted else look in
      Wakes-if _ (terminate before)
        (if reached then (if w.upstream_connected then restored else stay) else lost) tt
        (Wakes-if reached (if w.upstream_connected then restored else stay) lost
          (Wakes-if w.upstream_connected restored stay refl (watching m h))
          (Wakes-if w.local_promoted promoted look (local_is_primary-Wakes m before h)
            (look_for_primary-Wakes m before h)))

  by_monitoring_state-Wakes :
      (m : Monitor) (before : List Effect) (state : MonitoringState)
      → m.daemon.monitoring_state ≡ state
      → asleep m ≡ false
      → Wakes (by_monitoring_state settings w m before state)
  unfolding by_monitoring_state
  by_monitoring_state-Wakes m before ms_normal e h = h
  by_monitoring_state-Wakes m before ms_degraded e h =
      monitor_degraded-Wakes m before (ap is_degraded e)

  go_through-Wakes : (p : Phase) → Wakes p → Wakes (go_through settings w p)
  unfolding go_through
  go_through-Wakes (proceed m effects) h =
      by_monitoring_state-Wakes m effects m.daemon.monitoring_state refl h
  go_through-Wakes (to_loop m effects) h = h
  go_through-Wakes (leave m effects) h = h
  go_through-Wakes (terminate effects) h = h

  check_local-Watches :
      (m : Monitor) (before : List Effect) → asleep m ≡ false → Watches (check_local w m before)
  check_local-Watches m before h =
      from (check_local w m before)
        (check_local-Fares w false Anything (λ _ _. refl) m before h (all before))
    where
      all : (xs : List Effect) → All Anything xs
      all [] = tt
      all (x ∷ xs) = (refl, all xs)

      from : (n : Next) → Fares w false Anything (λ _ _. refl) n → Watches n
      from (go_on m effects) f = f.0
      from (restart m effects) f = tt
      from (terminated effects) f = tt

  finish-Watches : (p : Phase) → Wakes p → Watches (finish settings w p)
  unfolding finish
  finish-Watches (proceed m effects) h = check_local-Watches m effects h
  finish-Watches (to_loop m effects) h = check_local-Watches m effects h
  finish-Watches (leave m effects) h = tt
  finish-Watches (terminate effects) h = tt

  -- Where a standby's repmgrd that watches its upstream, a primary or a standby, goes on to
  -- another round, it still watches it: the upstream is marked as up, or monitoring is degraded. This
  -- holds whatever the answers of the round are, where the siblings' IDs are known.
  pub monitor_round-Watches :
      (m : Monitor)
      → is_upstream_type m.daemon.upstream_node_info.type ≡ true
      → asleep m ≡ false
      → Watches (monitor_round settings w m)
  unfolding monitor_round
  monitor_round-Watches m type h =
      finish-Watches (go_through settings w (check_upstream settings w m)) (
        go_through-Wakes (check_upstream settings w m)
          (check_upstream-Wakes settings w known m type h))
