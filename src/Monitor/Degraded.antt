-- ===== src/Monitor/Degraded.antt =====
-- `monitor_streaming_standby` in degraded monitoring: the timeout, the upstream's recovery, a
-- promotion of the local node, and the search for a new primary.
use repmgr.Base.{
  ℤ, pos, ltb_ℤ, ◌==ℤ◌, Bool, true, false, not, ◌&&◌, ◌||◌, Option, none, some, List, [], ◌∷◌, ◌++◌,
  if◌then◌else◌,
}
use repmgr.Nodes.{NodeInfo, MonitoringState, ms_normal, ms_degraded, node_status_up, is_witness}
use repmgr.Election.Siblings.{FailoverMode, failover_automatic, failover_manual}
use repmgr.Failover.World.{FailoverState, failover_promotion_failed, Peer, is_primary, Done}
use repmgr.Failover.Steps.{notify_followers, follow_new_primary}
use repmgr.Monitor.Upstream.{check_upstream_connection}
use repmgr.Monitor.State.{
  Monitor, MonitorSettings, RoundWorld, Effect, set_primary, acts, Phase, to_loop, leave, terminate,
  with_daemon, with_local, with_status, with_monitoring,
}
use repmgr.Monitor.Lost.{is_primary_type}

abbrev pub is_promotion_failed : FailoverState → Bool
is_promotion_failed failover_promotion_failed = true
is_promotion_failed _ = false

abbrev pub is_automatic : FailoverMode → Bool
is_automatic failover_automatic = true
is_automatic failover_manual = false

abbrev pub answers_as_primary : Peer → Bool
answers_as_primary is_primary = true
answers_as_primary _ = false

abbrev pub refresh : Monitor → Option NodeInfo → Monitor
refresh m none = m
refresh m (some local) = with_local m local

-- The loop over the siblings that looks for a new primary.
unfoldable pub find_primary : ℤ → (NodeInfo → Peer) → List NodeInfo → Option NodeInfo
find_primary local_id peer [] = none
find_primary local_id peer (node ∷ rest) =
    let later = find_primary local_id peer rest in
    if node.node_id ==ℤ local_id || is_witness node.type
    then later
    else if answers_as_primary (peer node)
    then some node
    else later

module _ (settings : MonitorSettings) (w : RoundWorld) where
  -- The new primary, if there is one, is followed; the round goes on either way.
  unfoldable pub follow_found : Monitor → List Effect → Option NodeInfo → Phase
  follow_found m before none = to_loop m before
  follow_found m before (some node) =
      let done : Done =
        follow_new_primary settings.failover w.cascade.around m.daemon node.node_id in
      to_loop (with_daemon m done.daemon) (before ++ acts done.actions)

  unfoldable pub look_for_primary : Monitor → List Effect → Phase
  unfolding follow_found find_primary
  look_for_primary m before =
      if is_automatic settings.failover.election.failover && not w.paused
      then follow_found m before
          (find_primary m.daemon.local_node_info.node_id w.sibling_peer w.siblings)
      else to_loop m before

  -- The promote command has failed, but the local node has been promoted.
  unfoldable pub complete_promotion : Monitor → List Effect → Phase
  complete_promotion m before =
      let m' = refresh m w.promoted_record in
      leave (with_monitoring m' ms_normal) (
        before
        ++ set_primary
          ∷ acts (
              notify_followers w.cascade.around w.former_siblings
                m'.daemon.local_node_info.node_id))

  unfoldable pub local_is_primary : Monitor → List Effect → Phase
  unfolding complete_promotion look_for_primary
  local_is_primary m before =
      let m' = refresh m w.refreshed_record in
      if is_promotion_failed m.failover_state
      then complete_promotion m before
      else if is_primary_type m'.daemon.local_node_info.type
      then leave (with_monitoring m' ms_normal) before
      else look_for_primary m' before

  unfoldable pub degraded_timed_out : Bool
  degraded_timed_out =
      ltb_ℤ (pos 0) settings.degraded_monitoring_timeout
      && ltb_ℤ settings.degraded_monitoring_timeout w.degraded_elapsed

  unfoldable pub monitor_degraded : Monitor → List Effect → Phase
  unfolding degraded_timed_out local_is_primary look_for_primary check_upstream_connection
  monitor_degraded m before =
      if degraded_timed_out
      then terminate before
      else if (check_upstream_connection settings.connection_check_type w.degraded_probe).result
      then (if w.upstream_connected
          then to_loop (with_monitoring (with_status m node_status_up) ms_normal) before
          else to_loop m before)
      else if w.local_promoted
      then local_is_primary m before
      else look_for_primary m before

  unfoldable pub by_monitoring_state : Monitor → List Effect → MonitoringState → Phase
  unfolding monitor_degraded
  by_monitoring_state m before ms_normal = to_loop m before
  by_monitoring_state m before ms_degraded = monitor_degraded m before
