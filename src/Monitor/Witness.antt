-- ===== src/Monitor/Witness.antt =====
-- The monitoring of a primary by a witness: one round of the loop of `monitor_streaming_witness`.
use repmgr.Base.{
  ◌++◌, ℤ, ◌==ℤ◌, Bool, true, false, not, ◌&&◌, Option, none, some, List, [], ◌∷◌, map,
  if◌then◌else◌,
}
use repmgr.Nodes.{
  NodeInfo, NodeStatus, node_status_up, node_status_unknown, MonitoringState, ms_normal,
  ms_degraded, unknown_node_id, RecoveryType, rectype_primary,
}
use repmgr.Election.Siblings.{Daemon}
use repmgr.Failover.World.{Surroundings, Peer}
use repmgr.Failover.Witness.{
  WitnessAction, copy_node_records, WitnessDone, witness_follow_new_primary, WitnessFailover,
  do_witness_failover,
}
use repmgr.Reconnect.{Attempts, Reconnection, try_reconnect}
use repmgr.Reconnect.Outcome.{is_down}
use repmgr.Monitor.Upstream.{Probe, check_upstream_connection}
use repmgr.Monitor.State.{MonitorSettings}
use repmgr.Monitor.Lost.{is_up}
use repmgr.Monitor.Degraded.{find_primary}

-- The answers in one round, in the order in which they are asked for: the check of the primary, the
-- attempts to reconnect with the recovery type after them, and what a failover meets; then those of
-- degraded monitoring; then those about the local node; and whether the node records are due to be
-- copied, with the recovery type of the server they are copied from.
pub record WitnessWorld : Type 0 where
  pub probe : Probe
  pub attempts : Attempts
  pub reconnected_type : RecoveryType
  pub around : Surroundings
  pub degraded_probe : Probe
  pub upstream_connected : Bool
  pub degraded_type : RecoveryType
  pub siblings : List NodeInfo
  pub sibling_peer : NodeInfo → Peer
  pub local_connected : Bool
  pub primary_connected : Bool
  pub set_active_succeeds : Bool
  pub stored_local_node_id : ℤ
  pub sync_due : Bool
  pub sync_type : RecoveryType

pub data WitnessEffect : Type 0 where
  set_upstream_last_seen : ℤ → WitnessEffect
  witness_act : WitnessAction → WitnessEffect
  set_active : Bool → WitnessEffect
  set_local_node_id : WitnessEffect

-- The loop goes on, or the function returns, which restarts monitoring.
pub data WitnessNext : Type 0 where
  stays leaves : Daemon → List WitnessEffect → WitnessNext

abbrev pub serves : RecoveryType → Bool
serves rectype_primary = true
serves _ = false

abbrev pub with_upstream_status : Daemon → NodeStatus → Daemon
with_upstream_status d status = record d {
  upstream_node_info = record (d.upstream_node_info) { node_status = status };
}

abbrev pub with_local_active : Daemon → Bool → Daemon
with_local_active d active = record d {
  local_node_info = record (d.local_node_info) { active = active };
}

module _ (settings : MonitorSettings) (w : WitnessWorld) where
  -- The copy of the node records, at the end of the round.
  unfoldable pub sync_records : Daemon → List WitnessEffect → WitnessNext
  sync_records d before =
      if w.primary_connected && w.sync_due
      then (if serves w.sync_type
          then stays d (before ++ witness_act copy_node_records ∷ [])
          else leaves d before)
      else stays d before

  -- The local node cannot be reached.
  unfoldable pub lose_local_node : Daemon → List WitnessEffect → WitnessNext
  unfolding sync_records
  lose_local_node d before =
      if d.local_node_info.active
      then sync_records (with_local_active d false)
          (before ++ (if w.primary_connected then set_active false ∷ [] else []))
      else sync_records d before

  -- The local node can be reached, and was marked as inactive before.
  unfoldable pub recover_local_node : Daemon → List WitnessEffect → WitnessNext
  unfolding sync_records
  recover_local_node d before =
      let marked =
        if w.primary_connected && w.set_active_succeeds then with_local_active d true else d in
      let tried = if w.primary_connected then set_active true ∷ [] else [] in
      let restored =
        if w.stored_local_node_id ==ℤ unknown_node_id then set_local_node_id ∷ [] else [] in
      sync_records marked (before ++ (tried ++ restored))

  -- From the label `loop` on.
  unfoldable pub check_local_node : Daemon → List WitnessEffect → WitnessNext
  unfolding lose_local_node recover_local_node
  check_local_node d before =
      if not w.local_connected
      then lose_local_node d before
      else if not d.local_node_info.active
      then recover_local_node d before
      else sync_records d before

  -- The node that is found to be the new primary is followed; whether this succeeds is not looked
  -- at.
  unfoldable pub follow_sibling : Daemon → List WitnessEffect → Option NodeInfo → WitnessNext
  unfolding check_local_node witness_follow_new_primary
  follow_sibling d before none = check_local_node d before
  follow_sibling d before (some node) =
      let done : WitnessDone = witness_follow_new_primary w.around d node.node_id in
      check_local_node done.daemon (before ++ map witness_act done.actions)

  unfoldable pub witness_degraded : Daemon → List WitnessEffect → WitnessNext
  unfolding follow_sibling find_primary check_upstream_connection
  witness_degraded d before =
      let recovered = record (with_upstream_status d node_status_up) {
        monitoring_state = ms_normal;
      } in
      if (check_upstream_connection settings.connection_check_type w.degraded_probe).result
      then (if w.upstream_connected
          then (if serves w.degraded_type
              then check_local_node recovered before
              else leaves recovered before)
          else check_local_node d before)
      else follow_sibling d before
          (find_primary d.local_node_info.node_id w.sibling_peer w.siblings)

  unfoldable pub witness_state : Daemon → List WitnessEffect → MonitoringState → WitnessNext
  unfolding witness_degraded
  witness_state d before ms_degraded = witness_degraded d before
  witness_state d before ms_normal = check_local_node d before

  -- The primary is still down after the attempts to reconnect.
  unfoldable pub witness_fails_over : Daemon → WitnessNext
  unfolding witness_state do_witness_failover
  witness_fails_over d =
      let failover : WitnessFailover = do_witness_failover settings.failover w.around d in
      let effects = map witness_act failover.actions in
      if failover.returned
      then leaves failover.daemon effects
      else witness_state failover.daemon effects failover.daemon.monitoring_state

  abbrev pub attempt_primary : Reconnection
  attempt_primary =
      try_reconnect w.attempts settings.reconnect_interval node_status_unknown
        settings.reconnect_attempts

  -- The primary cannot be reached, and was expected to be up.
  unfoldable pub lose_primary : Daemon → WitnessNext
  unfolding witness_fails_over
  lose_primary d =
      let tried = with_upstream_status d attempt_primary.node_status in
      if is_up attempt_primary.node_status
      then (if serves w.reconnected_type then check_local_node tried [] else leaves tried [])
      else if is_down attempt_primary.node_status
      then witness_fails_over tried
      else witness_state tried [] tried.monitoring_state

  unfoldable pub witness_round : Daemon → WitnessNext
  unfolding lose_primary
  witness_round d =
      if (check_upstream_connection settings.connection_check_type w.probe).result
      then witness_state d (set_upstream_last_seen d.upstream_node_info.node_id ∷ [])
          d.monitoring_state
      else if is_up d.upstream_node_info.node_status
      then lose_primary d
      else witness_state d [] d.monitoring_state
