-- ===== src/Client/Switchover/ControlFile.antt =====
-- What "repmgr node status --is-shutdown-cleanly" finds on the primary,
-- `_do_node_status_is_shutdown_cleanly` of repmgr-action-node.c, and what the switchover reads of
-- it, `parse_node_status_is_shutdown_cleanly` of repmgr-action-standby.c.
use repmgr.Base.{Bool, true, false, not, Option, none, some, ◌==◌, str_eq, String, if◌then◌else◌}
use repmgr.Nodes.{
  NodeStatus, node_status_unknown, node_status_up, node_status_shutting_down, node_status_down,
  node_status_unclean_shutdown, node_status_rejected, Lsn,
}
use repmgr.Client.Rejoin.Run.{
  DbState, db_shutdowned, db_shutdowned_in_recovery, db_shutdowning, seems_shut_down,
}
use repmgr.Client.Switchover.World.{PgPing}

-- The data directory, the answer to a ping, and the control file: its state, unless it cannot be
-- read, and the location of the latest checkpoint.
pub record ServerState : Type 0 where
  pub is_pg_dir : Bool
  pub ping : PgPing
  pub db_state : Option DbState
  pub latest_checkpoint : Lsn

unfoldable pub print_node_status : NodeStatus → String
print_node_status node_status_unknown = "UNKNOWN"
print_node_status node_status_up = "UP"
print_node_status node_status_shutting_down = "SHUTTING_DOWN"
print_node_status node_status_down = "SHUTDOWN"
print_node_status node_status_unclean_shutdown = "UNCLEAN_SHUTDOWN"
print_node_status node_status_rejected = "REJECTED"

abbrev pub was_shut_down : DbState → Bool
was_shut_down db_shutdowned = true
was_shut_down db_shutdowned_in_recovery = true
was_shut_down _ = false

abbrev is_shutting_down : DbState → Bool
is_shutting_down db_shutdowning = true
is_shutting_down _ = false

-- What the state says of a server that answers or not.
unfoldable pub state_status : Bool → DbState → NodeStatus
state_status answers state =
    if was_shut_down state
    then (if answers then node_status_up else node_status_unknown)
    else if not answers
    then node_status_unclean_shutdown
    else if is_shutting_down state
    then node_status_shutting_down
    else node_status_up

-- A status that is still unknown once the checkpoint has been read is a clean shutdown.
abbrev pub settle : NodeStatus → NodeStatus
settle node_status_unknown = node_status_down
settle status = status

unfoldable pub shutdown_status_of : ServerState → NodeStatus
unfolding state_status
shutdown_status_of s =
    let by_state : NodeStatus = elim s.db_state [
      | none ↦ node_status_unknown
      | some state ↦
          if s.latest_checkpoint == 0
          then node_status_unknown
          else settle (state_status (not (seems_shut_down s.ping)) state)
    ] in
    if not s.is_pg_dir then node_status_unknown else by_state

abbrev pub is_down_status : NodeStatus → Bool
is_down_status node_status_down = true
is_down_status _ = false

-- The state that is printed, and the location of the checkpoint, which is printed of a server that
-- is down.
unfoldable pub node_status_output : ServerState → String × Option Lsn
unfolding shutdown_status_of print_node_status
node_status_output s =
    let status = shutdown_status_of s in
    (print_node_status status, if is_down_status status then some s.latest_checkpoint else none)

-- The value of the option "--state".
unfoldable pub parse_state : String → NodeStatus
parse_state text =
    if str_eq text "RUNNING"
    then node_status_up
    else if str_eq text "SHUTDOWN"
    then node_status_down
    else if str_eq text "UNCLEAN_SHUTDOWN"
    then node_status_unclean_shutdown
    else node_status_unknown

unfoldable pub parse_node_status : String × Option Lsn → NodeStatus × Option Lsn
unfolding parse_state
parse_node_status (text, lsn) = (parse_state text, lsn)
