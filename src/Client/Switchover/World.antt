-- ===== src/Client/Switchover/World.antt =====
-- What a switchover reads and does.
use repmgr.Base.{ℕ, ℤ, Bool, Option, some, List, ◌++◌}
use repmgr.Nodes.{ServerType, NodeStatus, NodeAttached, Lsn}
use repmgr.Client.Join.{JoinWorld}
use repmgr.Client.Promote.Siblings.{Options, SiblingAction}
use repmgr.Client.Promote.Run.{PromoteWorld, PromoteAction}

-- The options of the command line, with whether a superuser is named.
pub record SwitchoverOptions : Type 0 where
  pub options : Options
  pub always_promote : Bool
  pub force_rewind_used : Bool
  pub superuser : Bool
  pub repmgrd_no_pause : Bool
  pub repmgrd_force_unpause : Bool

abbrev pub err_switchover_fail : ℕ
err_switchover_fail = 18

abbrev pub err_switchover_incomplete : ℕ
err_switchover_incomplete = 22

pub data CheckStatus : Type 0 where
  check_status_ok check_status_warning check_status_critical check_status_unknown : CheckStatus

pub data ConnectionStatus : Type 0 where
  conn_unknown conn_ok conn_bad conn_error : ConnectionStatus

pub data RemoteError : Type 0 where
  remote_error_unknown remote_error_none remote_error_db_connection : RemoteError
  remote_error_conninfo_parse : RemoteError

pub data PgPing : Type 0 where
  pqping_ok pqping_reject pqping_no_response pqping_no_attempt : PgPing

-- A record of the table of nodes, as far as the pauses read it.
pub record ActiveNode : Type 0 where
  pub node_id : ℤ
  pub active : Bool

-- What a node answers when the instances of repmgrd are listed.
pub record RepmgrdAnswer : Type 0 where
  pub connects : Bool
  pub is_running : Bool
  pub is_paused : Bool

-- The output of a command on the remote host is `none` when the command fails; what the parsers of
-- the outputs return stands for an output. `local` has the answers to the promotion over the
-- connection of repmgr, `as_superuser` over the one of the superuser. Where an answer is asked for
-- repeatedly it takes the round.
pub record SwitchoverWorld : Type 0 where
  pub node_record_found : Bool
  pub type : ServerType
  pub superuser_connects : Bool
  pub superuser_has_rights : Bool
  pub local : PromoteWorld
  pub as_superuser : PromoteWorld
  pub replication_config_owner_ok : Bool
  pub primary_connects : Bool
  pub remote_record_found : Bool
  pub upstream_node_id : ℤ
  pub remote_node_id : ℤ
  pub remote_slot_name : List ℕ
  pub local_attached : NodeAttached
  pub wal_replay_paused : Bool
  pub no_exclusive_backup : Bool
  pub can_use_pg_rewind : Bool
  pub ssh_result : ℤ
  pub repmgr_binary : Option (List ℕ)
  pub remote_repmgr_version : Option (Option ℕ)
  pub config_file_exists : Option (List ℕ)
  pub data_directory_config : Option Bool
  pub remote_superuser : Option CheckStatus
  pub remote_config_owner : Option Bool
  pub replication_connection : Option ConnectionStatus
  pub archive_mode_on : Bool
  pub archive_check : Option (CheckStatus × RemoteError)
  pub lag_seconds : ℤ
  pub replication_lag_critical : ℤ
  pub replication_lag_warning : ℤ
  pub all_nodes : List ActiveNode
  pub repmgrd : ℤ → RepmgrdAnswer
  pub shutdown_check_timeout : ℕ
  pub ping : ℕ → PgPing
  pub shutdown_status : ℕ → Option (NodeStatus × Option Lsn)
  pub local_connection_ok : Bool
  pub local_reconnects : Bool
  pub wal_receive_check_timeout : ℕ
  pub receive_lsn : ℕ → Option Lsn
  pub local_is_superuser : Bool
  pub rejoin_succeeds : Bool
  pub join : JoinWorld
  pub standby_reconnect_timeout : ℕ
  pub remote_connects : ℕ → Bool
  pub use_replication_slots : Bool
  pub remote_attached : NodeAttached
  pub reconnects : ℤ → Bool

-- `checkpoint` and `node_rejoin` say over which connection, of a superuser or none at all, and with
-- "--force-rewind" or without.
pub data SwitchoverAction : Type 0 where
  repmgrd_pause : ℤ → Bool → SwitchoverAction
  list_stop_actions stop_primary : SwitchoverAction
  promotion : PromoteAction → SwitchoverAction
  checkpoint : Bool → SwitchoverAction
  node_rejoin : Bool → SwitchoverAction
  switchover_notification : Bool → SwitchoverAction
  sibling : SiblingAction → SwitchoverAction
  drop_replication_slot : SwitchoverAction

-- The exit code, `none` when the function returns, and the actions.
pub record Switchover : Type 0 where
  pub exit_code : Option ℕ
  pub actions : List SwitchoverAction

abbrev pub ends : ℕ → List SwitchoverAction → Switchover
ends code actions = record { exit_code = some code; actions = actions }

-- A run after the actions that came before.
abbrev pub after : List SwitchoverAction → Switchover → Switchover
after before s = record { exit_code = s.exit_code; actions = before ++ s.actions }
