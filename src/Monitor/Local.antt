-- ===== src/Monitor/Local.antt =====
-- `monitor_streaming_standby` from the label `loop` on: the state of the local node and its record.
use repmgr.Base.{◌==ℤ◌, Bool, true, false, not, ◌&&◌, List, [], ◌∷◌, ◌++◌, if◌then◌else◌}
use repmgr.Nodes.{ServerType, MonitoringState, ms_normal, ms_degraded, unknown_node_id}
use repmgr.Monitor.State.{
  Monitor, RoundWorld, Effect, set_local_node_id, set_active, Next, go_on, restart, with_local,
  with_upstream_id,
}
use repmgr.Monitor.Degraded.{refresh}

abbrev pub is_standby_type : ServerType → Bool
is_standby_type ServerType.standby = true
is_standby_type _ = false

abbrev pub is_degraded : MonitoringState → Bool
is_degraded ms_degraded = true
is_degraded ms_normal = false

abbrev pub mark_active : Monitor → Bool → Monitor
mark_active m active = with_local m (record (m.daemon.local_node_info) { active = active })

abbrev pub upstream_changed : Monitor → Bool
upstream_changed m =
    not (m.last_known_upstream_node_id ==ℤ m.daemon.local_node_info.upstream_node_id)

module _ (w : RoundWorld) where
  -- The local node's upstream, where the local record differs from the upstream that is monitored.
  unfoldable pub confirm_upstream : Monitor → List Effect → Next
  confirm_upstream m before =
      let confirmed =
        if not (is_degraded m.daemon.monitoring_state)
          && m.last_known_upstream_node_id ==ℤ w.upstream_id_on_primary
        then with_upstream_id m m.last_known_upstream_node_id
        else m in
      if upstream_changed confirmed then restart confirmed before else go_on confirmed before

  -- The end of the round.
  unfoldable pub finish_round : Monitor → List Effect → Next
  unfolding confirm_upstream
  finish_round m before =
      let m' = refresh m w.final_record in
      if not (is_degraded m'.local_monitoring_state) && upstream_changed m'
      then confirm_upstream m' before
      else go_on m' before

  -- The local node cannot be reached.
  unfoldable pub local_lost : Monitor → List Effect → Next
  unfolding finish_round
  local_lost m before =
      let marked = if w.primary_connected then set_active false ∷ [] else [] in
      let degraded = record m { local_monitoring_state = ms_degraded } in
      if m.daemon.local_node_info.active
      then finish_round (mark_active degraded false) (before ++ marked)
      else finish_round degraded before

  -- The local node can be reached, and its record has been looked at again after an outage.
  unfoldable pub local_found : Monitor → List Effect → Next
  unfolding finish_round
  local_found m before =
      let effects =
        if w.stored_local_node_id ==ℤ unknown_node_id
        then before ++ set_local_node_id ∷ []
        else before in
      if w.primary_connected && w.primary_in_recovery
      then restart (with_upstream_id m unknown_node_id) effects
      else if not m.daemon.local_node_info.active && w.primary_connected
      then (if w.set_active_succeeds
          then finish_round (mark_active m true) (effects ++ set_active true ∷ [])
          else finish_round m effects)
      else finish_round m effects

  -- The local node has come back after an outage.
  unfoldable pub local_recovered : Monitor → List Effect → Next
  unfolding local_found
  local_recovered m before =
      let m' = refresh (record m { local_monitoring_state = ms_normal }) w.recovered_record in
      if upstream_changed m'
      then restart m' before
      else if not (is_standby_type m'.daemon.local_node_info.type)
      then restart m' before
      else local_found m' before

  unfoldable pub check_local : Monitor → List Effect → Next
  unfolding local_lost local_found local_recovered
  check_local m before =
      if not w.local_reconnected
      then local_lost m before
      else if is_degraded m.local_monitoring_state
      then local_recovered m before
      else local_found m before
