-- ===== src/Monitor/Primary.antt =====
-- The monitoring of a primary: `check_primary_status` and one round of the loop of
-- `monitor_streaming_primary`.
use repmgr.Base.{
  ◌++◌, ℤ, pos, ltb_ℤ, ◌==ℤ◌, Bool, true, false, not, ◌&&◌, Option, none, some, List, [], ◌∷◌,
  if◌then◌else◌,
}
use repmgr.Nodes.{
  NodeInfo, NodeStatus, node_status_up, node_status_unknown, MonitoringState, ms_normal,
  ms_degraded, unknown_node_id, RecoveryType, rectype_unknown, rectype_primary, rectype_standby,
}
use repmgr.Reconnect.{Attempts, Reconnection, try_reconnect}
use repmgr.Monitor.State.{MonitorSettings}
use repmgr.Monitor.Lost.{is_primary_type, is_up}

-- The variables that the loop changes.
pub record PrimaryMonitor : Type 0 where
  pub local_node_info : NodeInfo
  pub monitoring_state : MonitoringState
  pub primary_node_id : ℤ

-- What `get_node_record` finds.
pub data RecordStatus : Type 0 where
  record_error record_not_found : RecordStatus
  record_found : NodeInfo → RecordStatus

-- What one check of the primary's status asks: the node's recovery type, whether there is a new
-- primary and its ID, the local node's record on it, whether that can be changed, and the record
-- that is read again.
pub record StatusWorld : Type 0 where
  pub recovery_type : RecoveryType
  pub new_primary_connects : Bool
  pub new_primary_node_id : ℤ
  pub record_on_primary : RecordStatus
  pub set_succeeds : Bool
  pub record_again : RecordStatus

pub data PrimaryEffect : Type 0 where
  reset_local_node_id check_child_nodes set_active_standby : PrimaryEffect

-- What `check_primary_status` returns, `none` when repmgrd terminates, and leaves behind.
pub record PrimaryStatus : Type 0 where
  pub returned : Option Bool
  pub monitor : PrimaryMonitor
  pub effects : List PrimaryEffect

abbrev with_record : PrimaryMonitor → NodeInfo → PrimaryMonitor
with_record m node = record m {
  local_node_info = record node { node_status = node_status_unknown };
}

abbrev goes_on : List PrimaryEffect → PrimaryMonitor → PrimaryStatus
goes_on effects m = record { returned = some true; monitor = m; effects = effects }

-- Monitoring is restarted as that of a standby.
unfoldable pub resume_as_standby : Bool → List PrimaryEffect → PrimaryMonitor → PrimaryStatus
resume_as_standby was_degraded effects m =
    let resumed = if was_degraded then record m { monitoring_state = ms_normal } else m in
    record { returned = some false; monitor = resumed; effects = effects }

-- Once the record has been changed, it is read again.
unfoldable pub after_update : Bool → PrimaryMonitor → RecordStatus → PrimaryStatus
unfolding resume_as_standby
after_update was_degraded m (record_found node) =
    resume_as_standby was_degraded (set_active_standby ∷ []) (with_record m node)
after_update was_degraded m record_not_found = goes_on (set_active_standby ∷ []) m
after_update was_degraded m record_error = goes_on (set_active_standby ∷ []) m

-- Once the record on the new primary has been looked for.
unfoldable pub register_standby : Bool → StatusWorld → PrimaryMonitor → PrimaryStatus
unfolding after_update resume_as_standby
register_standby was_degraded w m =
    if is_primary_type m.local_node_info.type
    then (if w.set_succeeds
        then after_update was_degraded m w.record_again
        else goes_on (set_active_standby ∷ []) m)
    else resume_as_standby was_degraded [] m

unfoldable pub now_standby : Bool → StatusWorld → PrimaryMonitor → RecordStatus → PrimaryStatus
unfolding register_standby
now_standby was_degraded w m record_not_found = record {
  returned = none;
  monitor = m;
  effects = [];
}
now_standby was_degraded w m record_error = register_standby was_degraded w m
now_standby was_degraded w m (record_found node) =
    register_standby was_degraded w (with_record m node)

unfoldable pub by_recovery : Bool → StatusWorld → PrimaryMonitor → RecoveryType → PrimaryStatus
unfolding now_standby
by_recovery was_degraded w m rectype_unknown = goes_on [] m
by_recovery was_degraded w m rectype_primary =
    goes_on [] (if was_degraded then record m { monitoring_state = ms_normal } else m)
by_recovery was_degraded w m rectype_standby =
    let m' = record m { primary_node_id = w.new_primary_node_id } in
    if w.new_primary_connects
    then now_standby was_degraded w m' w.record_on_primary
    else goes_on [] m'

-- `was_degraded` says that the time of degraded monitoring is given.
unfoldable pub check_primary_status : Bool → StatusWorld → PrimaryMonitor → PrimaryStatus
unfolding by_recovery
check_primary_status was_degraded w m = by_recovery was_degraded w m w.recovery_type

-- The answers in one round: the connection to the local node and the attempts to reconnect, the
-- check after them, the degraded monitoring with its check, whether the child nodes are due, and
-- the check at the end.
pub record PrimaryWorld : Type 0 where
  pub local_connected : Bool
  pub attempts : Attempts
  pub stored_local_node_id : ℤ
  pub after_reconnect : StatusWorld
  pub degraded_elapsed : ℤ
  pub server_available : Bool
  pub connects : Bool
  pub after_degraded : StatusWorld
  pub child_nodes_due : Bool
  pub at_end : StatusWorld

-- The loop goes on, monitoring is restarted as that of a standby, or repmgrd terminates.
pub data PrimaryNext : Type 0 where
  stays leaves ends : PrimaryMonitor → List PrimaryEffect → PrimaryNext

abbrev pub continue_with :
    PrimaryStatus
    → List PrimaryEffect
    → (List PrimaryEffect → PrimaryMonitor → PrimaryNext)
    → PrimaryNext
continue_with checked before later =
    let effects = before ++ checked.effects in
    elim checked.returned [
      | none ↦ ends checked.monitor effects
      | some continue ↦
          if continue then later effects checked.monitor else leaves checked.monitor effects
    ]

abbrev pub with_local_status : PrimaryMonitor → NodeStatus → PrimaryMonitor
with_local_status m status = record m {
  local_node_info = record (m.local_node_info) { node_status = status };
}

module _ (settings : MonitorSettings) (w : PrimaryWorld) where
  -- From the label `loop` on.
  unfoldable pub end_round : List PrimaryEffect → PrimaryMonitor → PrimaryNext
  unfolding check_primary_status
  end_round effects m =
      continue_with (check_primary_status false w.at_end m) effects (λ e m'. stays m' e)

  unfoldable pub primary_degraded : PrimaryMonitor → PrimaryNext
  unfolding end_round
  primary_degraded m =
      if ltb_ℤ (pos 0) settings.degraded_monitoring_timeout
        && ltb_ℤ settings.degraded_monitoring_timeout w.degraded_elapsed
      then ends m []
      else if w.server_available && w.connects
      then continue_with
          (check_primary_status true w.after_degraded (with_local_status m node_status_up)) []
          end_round
      else end_round [] m

  unfoldable pub by_state : PrimaryMonitor → MonitoringState → PrimaryNext
  unfolding primary_degraded
  by_state m ms_degraded = primary_degraded m
  by_state m ms_normal = end_round (if w.child_nodes_due then check_child_nodes ∷ [] else []) m

  abbrev pub attempt_local : Reconnection
  attempt_local =
      try_reconnect w.attempts settings.reconnect_interval node_status_unknown
        settings.reconnect_attempts

  -- The local node is down, and was expected to be up.
  unfoldable pub lose_local : PrimaryMonitor → PrimaryNext
  unfolding by_state
  lose_local m =
      let tried = with_local_status m attempt_local.node_status in
      let effects =
        if w.stored_local_node_id ==ℤ unknown_node_id then reset_local_node_id ∷ [] else [] in
      if is_up attempt_local.node_status
      then continue_with (check_primary_status false w.after_reconnect tried) effects end_round
      else by_state (record tried { monitoring_state = ms_degraded }) ms_degraded

  unfoldable pub primary_round : PrimaryMonitor → PrimaryNext
  unfolding lose_local
  primary_round m =
      if not w.local_connected && is_up m.local_node_info.node_status
      then lose_local m
      else by_state m m.monitoring_state
