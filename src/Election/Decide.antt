-- ===== src/Election/Decide.antt =====
-- `do_election` of repmgrd-physical.c outside the loop over the sibling nodes, and
-- `execute_failover_validation_command`.
use repmgr.Base.{
  ◌+◌, ◌*◌, str_eq, ℤ, pos, negsuc, leb_ℤ, ◌==ℤ◌, true, not, ◌&&◌, Option, none, some, List, [],
  ◌∷◌, length, ltb, leb, if◌then◌else◌,
}
use repmgr.Nodes.{NodeInfo, ReplInfo, ms_degraded, unknown_node_id}
use repmgr.Templates.{ElectionStats, parse_failover_validation_command}
use repmgr.Election.Siblings.{
  Config, World, Daemon, Tally, failover_manual, failover_automatic, ElectionResult,
  election_not_candidate, election_won, election_lost, election_cancelled, election_rerun, scan,
}

-- What `do_election` returns, with what it leaves in repmgrd's variables, in the caller's list
-- of siblings and in the caller's `new_primary_id`.
pub record Election : Type 0 where
  pub result : ElectionResult
  pub daemon : Daemon
  pub sibling_nodes : List NodeInfo
  pub new_primary_id : ℤ

unfoldable pub execute_failover_validation_command :
    Config → World → NodeInfo → ElectionStats → ElectionResult
execute_failover_validation_command config world node stats =
    let command =
      parse_failover_validation_command node.node_id node.node_name stats
        config.failover_validation_command in
    if world.command_return_value command ==ℤ pos 0 then election_won else election_rerun

-- The decision of the local node in its own favour.
unfoldable pub validated : Config → World → NodeInfo → ElectionStats → ElectionResult
unfolding execute_failover_validation_command
validated config world node stats = elim config.failover_validation_command [
  | [] ↦ election_won
  | c ∷ cs ↦ execute_failover_validation_command config world node stats
]

module _ (config : Config) (world : World) where
  -- The decision after the loop over the siblings.
  unfoldable pub conclude : Daemon → List NodeInfo → Tally → ElectionResult × Daemon
  conclude daemon siblings tally =
      let stats : ElectionStats = record {
        visible_nodes = tally.visible_nodes;
        shared_upstream_nodes = length siblings + 1;
        all_nodes = world.all_nodes_count;
      } in
      let degraded = record daemon { monitoring_state = ms_degraded; voting_reset = true } in
      if not tally.primary_location_seen
      then (election_cancelled, degraded)
      else if ltb 0 tally.nodes_with_primary_still_visible && config.primary_visibility_consensus
      then (election_cancelled, degraded)
      else if leb (2 * tally.visible_nodes) (length siblings + 1)
      then (election_cancelled, degraded)
      else if tally.candidate.node_id ==ℤ daemon.local_node_info.node_id
      then (validated config world tally.candidate stats, daemon)
      else (election_lost, daemon)

  -- The loop and the decision, once the local node's LSN is known.
  unfoldable pub hold_election : Daemon → List NodeInfo → Election
  hold_election daemon siblings =
      let tally : Tally = record {
        visible_nodes = 1;
        primary_location_seen =
            str_eq daemon.upstream_node_info.location daemon.local_node_info.location;
        nodes_with_primary_still_visible = 0;
        candidate = daemon.local_node_info;
      } in
      let scanned = scan config world daemon tally siblings in
      elim scanned.new_primary [
        | some id ↦ record {
          result = election_cancelled;
          daemon = daemon;
          sibling_nodes = scanned.nodes;
          new_primary_id = id;
        }
        | none ↦
            let (result, daemon') = conclude daemon siblings scanned.tally in
            record {
              result = result;
              daemon = daemon';
              sibling_nodes = scanned.nodes;
              new_primary_id = unknown_node_id;
            }
      ]

  abbrev stay : Daemon → List NodeInfo → ElectionResult → Election
  stay daemon siblings result = record {
    result = result;
    daemon = daemon;
    sibling_nodes = siblings;
    new_primary_id = unknown_node_id;
  }

  -- The local node's replication information: WAL replay is resumed if it is paused.
  unfoldable pub ready_local : Daemon → List NodeInfo → Option ReplInfo → Election
  ready_local daemon siblings none = stay daemon siblings election_lost
  ready_local daemon siblings (some info) =
      let local = record (daemon.local_node_info) {
        last_wal_receive_lsn = info.last_wal_receive_lsn;
      } in
      if info.wal_replay_paused && not world.resume_wal_replay
      then stay daemon siblings election_lost
      else hold_election (record daemon { local_node_info = local }) siblings

  -- No other standby or witness is registered.
  unfoldable pub only_candidate : Daemon → Election
  only_candidate daemon =
      let stats : ElectionStats = record {
        visible_nodes = 1;
        shared_upstream_nodes = 1;
        all_nodes = world.all_nodes_count;
      } in
      if str_eq daemon.upstream_node_info.location daemon.local_node_info.location
      then stay daemon [] (validated config world daemon.local_node_info stats)
      else stay (record daemon { monitoring_state = ms_degraded }) [] election_not_candidate

  unfoldable pub start_election : Daemon → List NodeInfo → Election
  start_election daemon [] = only_candidate daemon
  start_election daemon (node ∷ rest) =
      ready_local daemon (node ∷ rest) world.local_replication_info

  unfoldable pub do_election : Daemon → Election
  do_election daemon =
      let local = record (daemon.local_node_info) { last_wal_receive_lsn = 0 } in
      if world.get_current_term ==ℤ negsuc 0
      then stay daemon [] election_not_candidate
      else elim config.failover [
        | failover_manual ↦ stay daemon [] election_not_candidate
        | failover_automatic ↦
            if leb_ℤ daemon.local_node_info.priority (pos 0)
            then stay daemon [] election_lost
            else start_election (record daemon { local_node_info = local })
                world.active_sibling_nodes
      ]
