-- ===== src/Lib.antt =====
-- repmgr manages the replication clusters of PostgreSQL: the command line tool repmgr sets
-- nodes up and switches them over, the daemon repmgrd watches the primary from each standby and
-- runs the failover, and the extension repmgr keeps the state that the daemons of the nodes
-- exchange in the shared memory of each server.
--
-- The files and the code that they model:
--
-- - Nodes: the node and replication records and the enumerations of dbutils.h and repmgr.h, as
--   far as the failover reads them.
-- - Templates: the command templates, parse_follow_command of strutil.c,
--   parse_failover_validation_command and parse_child_nodes_disconnect_command of
--   repmgrd-physical.c.
-- - Election: do_election of repmgrd-physical.c. Siblings is the loop over the sibling nodes,
--   Decide the code around it with execute_failover_validation_command, Follow
--   check_node_can_follow.
-- - Failover: do_primary_failover of repmgrd-physical.c and its callees. Receivers is the wait
--   for the WAL receivers of the siblings, Steps has promote_self, follow_new_primary,
--   notify_followers, wait_primary_notification and get_new_primary of dbutils.c, Primary the
--   failover itself, Witness do_witness_failover and witness_follow_new_primary, Cascade
--   do_upstream_standby_failover. The failover calls the election as the code does.
-- - Reconnect: try_primary_reconnect of repmgrd-physical.c and try_reconnect of repmgrd.c, the
--   attempts before a failover.
-- - Monitor: the loop of monitor_streaming_standby of repmgrd-physical.c, which calls the
--   attempts to reconnect and the failovers. Upstream is check_upstream_connection of
--   repmgrd.c, Lost the part of a round from the check of the upstream to the end of a
--   failover, Degraded the part in degraded monitoring, Local the part from the label loop on,
--   Round their composition and a run of several rounds. Primary is check_primary_status and a
--   round of monitor_streaming_primary. Witness is a round of monitor_streaming_witness,
--   WitnessRun its start and a run of several rounds.
-- - Client: Attach is check_node_can_attach of repmgr-client.c; Promote is do_standby_promote
--   of repmgr-action-standby.c, with _do_standby_promote_internal in Run, and
--   check_sibling_nodes, check_free_wal_senders, check_free_slots and sibling_nodes_follow in
--   Siblings; Join is check_standby_join of repmgr-client.c; Follow is do_standby_follow, with
--   do_standby_follow_internal in Internal; Rejoin is do_node_rejoin of repmgr-action-node.c,
--   which uses Attach, the internal function of Follow and Join; Switchover is
--   do_standby_switchover of repmgr-action-standby.c: Checks has the checks of the two nodes,
--   Repmgrd the pauses of repmgrd and their ends, Shutdown the waits for the shutdown of the
--   primary and for its WAL, Finish all that follows the promotion, Run the whole, which uses
--   the checks and the promotion of Promote, and ControlFile what "repmgr node status
--   --is-shutdown-cleanly" (repmgr-action-node.c) finds on the primary and the switchover reads
--   of it.
-- - SharedState: the SQL functions of repmgr.c on the shared memory, with the state file of
--   repmgrd_pause (StateFile).
-- - ChildNodes: the watch of repmgrd on a primary over its child nodes, in repmgrd-physical.c.
--   Records has the list of t_child_node_info with append_child_node_record and
--   remove_child_node_record, Watch check_primary_child_nodes with check_witness_attached,
--   Command execute_child_nodes_disconnect_command. Startup is the list at the start of
--   monitor_streaming_primary.
-- - Text: ConnString and Shell are appendConnStrVal and appendShellString of compat.c, Number
--   is repmgr_atoi of configfile.c.
-- - Base: tests, lists, integers and decimal numbers, for all of these.
-- - Examples: tests by evaluation, and the theorems at concrete inputs.
--
-- How the state is modelled. A C function that changes global variables takes them as a record
-- and returns the new record; the record Daemon holds those of repmgrd, SharedState those of
-- the extension. What the database, the other servers, the shell and the clock answer is a
-- parameter: the records World, FollowWorld, Surroundings, CascadeWorld, Attempts, Probe,
-- RoundWorld, StatusWorld, PrimaryWorld, WitnessWorld, WitnessStart, PromoteWorld, JoinWorld,
-- StandbyFollowWorld, FollowAnswers, RejoinWorld and SwitchoverWorld have a field for each
-- query or command, and where an answer may change while repmgrd waits the field takes the
-- second or the round. Changes to the outside are a list of Action, of Effect, PrimaryEffect or
-- WitnessEffect in a round of monitoring, of WitnessAction in the failover of a witness, of
-- PromoteAction in a promotion, of SwitchoverAction in a switchover, and of FollowAction and
-- RejoinAction. A round that leaves the loop by return restarts monitoring; a program that
-- exits is a value with the exit code; a step of the failover that ends repmgrd says so in its
-- field exits. An int is an integer of Base, an unsigned LSN, a timeline and a timestamp a
-- natural number; the wrap to 32 bits is written out where the code converts. The list of child
-- nodes is the chain of its records with the place that its tail leads to, which may be a freed
-- record; an access to a freed record is the result none. A C string is the list of its bytes,
-- or a String where the code only compares it.
--
-- Bounds and fuel. No definition runs on fuel that could end early: the polls of a promotion
-- have as many rounds as the timeout has seconds, which is enough as the interval is at least
-- one second in every configuration that is accepted; the loops of a switchover and of
-- check_standby_join have as many rounds as their timeouts, and the second loop of
-- check_standby_join starts with node_rejoin_timeout rounds left, which is enough from any
-- round on; every other loop is a recursion on its list, its text or the number of rounds that
-- the configuration allows, and the decimal digits of a number n are computed with fuel n + 1,
-- which the proofs show to be enough. MAXPGPATH is PostgreSQL's 1024.
--
-- Not modelled: log output and event notifications (but for the one at the end of a
-- switchover), the parsers of the output of remote commands but for that one, whose results are
-- answers, the start of the monitoring of a primary (but for its list of child nodes) and of a
-- standby, with the reload of the configuration and the monitoring history, the scanning of the
-- configuration file, and the other actions of the command line tool, which are sequences of
-- SQL queries, ssh commands and file operations. A timeline number is not wrapped at 2^32, and
-- a scan of an integer out of the range of long is clamped as by strtol.
pub mod Base
pub mod Nodes
pub mod Templates
pub mod Election
pub mod Failover
pub mod SharedState
pub mod ChildNodes
pub mod Text
pub mod Reconnect
pub mod Monitor
pub mod Client
pub mod Examples
