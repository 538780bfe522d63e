-- ===== src/Monitor/State.antt =====
-- The variables of `monitor_streaming_standby`, its settings, and what one round of its loop asks.
use repmgr.Base.{ℕ, ℤ, Bool, Option, List, map}
use repmgr.Nodes.{NodeInfo, MonitoringState, NodeStatus}
use repmgr.Election.Siblings.{Daemon}
use repmgr.Failover.World.{FailoverState, Settings, Peer, Action}
use repmgr.Failover.Cascade.{CascadeWorld}
use repmgr.Reconnect.{Attempts}
use repmgr.Monitor.Upstream.{CheckType, Probe}

pub record Monitor : Type 0 where
  pub daemon : Daemon
  pub failover_state : FailoverState
  pub primary_node_id : ℤ
  pub local_monitoring_state : MonitoringState
  pub last_known_upstream_node_id : ℤ

pub record MonitorSettings : Type 0 where
  pub failover : Settings
  pub connection_check_type : CheckType
  pub reconnect_attempts : ℕ
  pub reconnect_interval : ℕ
  pub degraded_monitoring_timeout : ℤ

-- The answers in one round, in the order in which they are asked for: the check of the upstream,
-- the attempts to reconnect and what a failover meets; then those of degraded monitoring; then
-- those about the local node.
pub record RoundWorld : Type 0 where
  pub probe : Probe
  pub local_connected : Bool
  pub attempts : Attempts
  pub upstream_in_recovery : Bool
  pub paused : Bool
  pub cascade : CascadeWorld
  pub primary_node_id : ℤ
  pub degraded_elapsed : ℤ
  pub degraded_probe : Probe
  pub upstream_connected : Bool
  pub local_promoted : Bool
  pub promoted_record : Option NodeInfo
  pub former_siblings : List NodeInfo
  pub refreshed_record : Option NodeInfo
  pub siblings : List NodeInfo
  pub sibling_peer : NodeInfo → Peer
  pub local_reconnected : Bool
  pub recovered_record : Option NodeInfo
  pub stored_local_node_id : ℤ
  pub primary_connected : Bool
  pub primary_in_recovery : Bool
  pub set_active_succeeds : Bool
  pub final_record : Option NodeInfo
  pub upstream_id_on_primary : ℤ

-- What a round does to the outside: the actions of a failover, the note of when the upstream was
-- last seen, the settings restored in shared memory, and what is written to the local node's record:
-- its mark, its type and its upstream.
pub data Effect : Type 0 where
  act : Action → Effect
  set_upstream_last_seen : ℤ → Effect
  set_local_node_id : Effect
  set_active : Bool → Effect
  set_primary : Effect
  set_upstream_id : ℤ → Effect

abbrev pub acts : List Action → List Effect
acts = map act

-- Where a part of the round goes on: with the part below, at the label `loop`, or out of the
-- function, which restarts monitoring; or repmgrd terminates.
pub data Phase : Type 0 where
  proceed to_loop leave : Monitor → List Effect → Phase
  terminate : List Effect → Phase

-- A round that goes on to the next, restarts monitoring, or terminates repmgrd.
pub data Next : Type 0 where
  go_on restart : Monitor → List Effect → Next
  terminated : List Effect → Next

abbrev pub with_daemon : Monitor → Daemon → Monitor
with_daemon m daemon = record m { daemon = daemon }

abbrev pub with_local : Monitor → NodeInfo → Monitor
with_local m local =
    let daemon = record (m.daemon) { local_node_info = local } in record m { daemon = daemon }

abbrev pub with_status : Monitor → NodeStatus → Monitor
with_status m status =
    let upstream = record (m.daemon.upstream_node_info) { node_status = status } in
    let daemon = record (m.daemon) { upstream_node_info = upstream } in record m { daemon = daemon }

abbrev pub with_monitoring : Monitor → MonitoringState → Monitor
with_monitoring m state =
    let daemon = record (m.daemon) { monitoring_state = state } in record m { daemon = daemon }

-- The local node's upstream is to be found anew.
abbrev pub with_upstream_id : Monitor → ℤ → Monitor
with_upstream_id m id = with_local m (record (m.daemon.local_node_info) { upstream_node_id = id })
