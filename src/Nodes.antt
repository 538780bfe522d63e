-- ===== src/Nodes.antt =====
-- The node records and enumerations of dbutils.h that repmgrd's failover logic works on.
use repmgr.Base.{ℕ, String, List, ℤ, negsuc, Bool, true, false}

pub data ServerType : Type 0 where
  unknown primary standby witness : ServerType

pub data MonitoringState : Type 0 where
  ms_normal ms_degraded : MonitoringState

pub data NodeStatus : Type 0 where
  node_status_unknown node_status_up node_status_shutting_down node_status_down : NodeStatus
  node_status_unclean_shutdown node_status_rejected : NodeStatus

pub data RecoveryType : Type 0 where
  rectype_unknown rectype_primary rectype_standby : RecoveryType

pub data NodeAttached : Type 0 where
  node_attached_unknown node_attached node_not_attached node_detached : NodeAttached

-- An XLogRecPtr; `InvalidXLogRecPtr` is 0.
abbrev pub Lsn : Type 0
Lsn = ℕ

abbrev pub unknown_node_id : ℤ
unknown_node_id = negsuc 0

abbrev pub unknown_pid : ℤ
unknown_pid = negsuc 0

abbrev pub election_rerun_notification : ℤ
election_rerun_notification = negsuc 1

-- The fields of `t_node_info` that the failover code reads or writes. A text that the code only
-- prints or compares is a `String`; `node_name`, which a command template copies, is its bytes.
pub record NodeInfo : Type 0 where
  pub node_id : ℤ
  pub upstream_node_id : ℤ
  pub type : ServerType
  pub node_name : List ℕ
  pub location : String
  pub priority : ℤ
  pub last_wal_receive_lsn : Lsn
  pub active : Bool
  pub node_status : NodeStatus

-- The fields of `ReplInfo` that the failover code reads.
pub record ReplInfo : Type 0 where
  pub in_recovery : Bool
  pub last_wal_receive_lsn : Lsn
  pub last_wal_replay_lsn : Lsn
  pub wal_replay_paused : Bool
  pub upstream_last_seen : ℤ
  pub upstream_node_id : ℤ

abbrev pub is_witness : ServerType → Bool
is_witness witness = true
is_witness _ = false
