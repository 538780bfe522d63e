-- ===== src/Failover/World.antt =====
-- The states and settings of a failover, what it asks of its surroundings, and the actions by which
-- it changes them.
use repmgr.Base.{ℕ, ℤ, Bool, Option, List}
use repmgr.Nodes.{NodeInfo}
use repmgr.Election.Siblings.{Config, World, Daemon}

pub data FailoverState : Type 0 where
  failover_unknown failover_none failover_promoted failover_promotion_failed : FailoverState
  failover_primary_reappeared failover_local_node_failure failover_waiting_new_primary :
      FailoverState
  failover_follow_new_primary failover_requires_manual failover_followed_new_primary : FailoverState
  failover_following_original_primary failover_no_new_primary failover_follow_fail : FailoverState
  failover_node_notification_error failover_election_rerun : FailoverState

-- The settings of repmgr.conf; a negative number of rounds is none.
pub record Settings : Type 0 where
  pub election : Config
  pub standby_disconnect_on_failover : Bool
  pub sibling_nodes_disconnect_timeout : ℕ
  pub always_promote : Bool
  pub follow_command : List ℕ
  pub primary_notification_timeout : ℕ
  pub repmgrd_standby_startup_timeout : ℕ

-- The answer to "SELECT repmgr.get_new_primary()".
pub data QueryResult : Type 0 where
  failed null : QueryResult
  value : ℤ → QueryResult

-- How the shell that `system` ran ended.
pub data Exit : Type 0 where
  exited : ℕ → Exit
  signalled : Exit

-- What a connection attempt finds: no connection, or a server that is a primary or is not.
pub data Peer : Type 0 where
  unreachable in_recovery is_primary : Peer

-- The answers of the local database, of the other servers and of the shell during one failover.
-- Where the answer may change from second to second, the first argument counts the seconds.
pub record Surroundings : Type 0 where
  pub election : World
  pub server_version_num : ℕ
  pub check_sibling_nodes : List NodeInfo
  pub wal_receiver_pid : ℕ → NodeInfo → Option ℤ
  pub notification : ℕ → QueryResult
  pub node_record : ℤ → Option NodeInfo
  pub promote_exit : Exit
  pub local_connection : Bool
  pub local_reconnects : Bool
  pub primary_connection : Option ℤ
  pub local_record_promoted : Option NodeInfo
  pub sibling_nodes_promoted : List NodeInfo
  pub notifiable : NodeInfo → Bool
  pub new_primary : NodeInfo → Peer
  pub old_primary : NodeInfo → Peer
  pub follow_exit : List ℕ → ℤ
  pub record_on_primary : ℤ → Option NodeInfo
  pub local_starts : ℕ → Bool

-- `run_promote_command` carries how the command ended.
pub data Action : Type 0 where
  disable_wal_receiver enable_wal_receiver increment_current_term : Action
  run_promote_command : Exit → Action
  run_follow_command : List ℕ → Action
  notify_follow_primary : ℤ → ℤ → Action

-- What a step of the failover returns and leaves behind. `exits` says that the program has ended
-- within the step: no state has been returned then, and `state` is `failover_unknown`.
pub record Done : Type 0 where
  pub exits : Bool
  pub state : FailoverState
  pub daemon : Daemon
  pub actions : List Action
