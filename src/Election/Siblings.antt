-- ===== src/Election/Siblings.antt =====
-- The variables of `do_election` of repmgrd-physical.c and its loop over the sibling nodes. What
-- other servers and the database answer is the record `World`; the loop is `scan`, its body
-- `check_sibling`.
use repmgr.Base.{
  ℕ, ◌+◌, ◌*◌, str_eq, ℤ, pos, negsuc, ltb_ℤ, leb_ℤ, ◌==ℤ◌, Bool, not, ◌&&◌, ◌||◌, Option, none,
  some, List, [], ◌∷◌, ltb, ◌==◌, if◌then◌else◌,
}
use repmgr.Nodes.{
  NodeInfo, ReplInfo, node_status_unknown, node_status_up, MonitoringState, unknown_pid, is_witness,
}
use repmgr.Election.Follow.{FollowWorld, check_node_can_follow}

pub data ElectionResult : Type 0 where
  election_not_candidate election_won election_lost election_cancelled : ElectionResult
  election_rerun : ElectionResult

pub data FailoverMode : Type 0 where
  failover_manual failover_automatic : FailoverMode

-- The settings of repmgr.conf that the election reads.
pub record Config : Type 0 where
  pub failover : FailoverMode
  pub monitor_interval_secs : ℤ
  pub primary_visibility_consensus : Bool
  pub failover_validation_command : List ℕ

-- What the queries, connection attempts and commands of one election return.
pub record World : Type 0 where
  pub get_current_term : ℤ
  pub active_sibling_nodes : List NodeInfo
  pub all_nodes_count : ℕ
  pub local_replication_info : Option ReplInfo
  pub resume_wal_replay : Bool
  pub connects : NodeInfo → Bool
  pub repmgrd_get_pid : NodeInfo → ℤ
  pub get_replication_info : NodeInfo → Option ReplInfo
  pub follow_world : NodeInfo → FollowWorld
  pub command_return_value : List ℕ → ℤ

-- The variables of repmgrd that an election changes; `voting_reset` records a call of
-- `reset_node_voting_status`.
pub record Daemon : Type 0 where
  pub local_node_info : NodeInfo
  pub upstream_node_info : NodeInfo
  pub monitoring_state : MonitoringState
  pub voting_reset : Bool

-- The variables of the loop over the sibling nodes; `candidate` is what `candidate_node` points to.
pub record Tally : Type 0 where
  pub visible_nodes : ℕ
  pub primary_location_seen : Bool
  pub nodes_with_primary_still_visible : ℕ
  pub candidate : NodeInfo

pub data Step : Type 0 where
  cancel : ℤ → NodeInfo → Step
  proceed : Tally → NodeInfo → Step

-- What the loop leaves: the node to follow if one broke it off, the tally, and the sibling records.
pub record Scanned : Type 0 where
  pub new_primary : Option ℤ
  pub tally : Tally
  pub nodes : List NodeInfo

-- The node that remains the candidate of the two: the LSN decides, then the priority, then the
-- lower node ID.
unfoldable pub compare_candidate : NodeInfo → NodeInfo → NodeInfo
compare_candidate candidate node =
    if ltb candidate.last_wal_receive_lsn node.last_wal_receive_lsn
    then node
    else if node.last_wal_receive_lsn == candidate.last_wal_receive_lsn
    then (if ltb_ℤ candidate.priority node.priority
        then node
        else if node.priority ==ℤ candidate.priority
        then (if ltb_ℤ node.node_id candidate.node_id then node else candidate)
        else candidate)
    else candidate

-- `monitor_interval_secs * 2`, as an integer.
abbrev pub double_ℤ : ℤ → ℤ
double_ℤ (pos n) = pos (n * 2)
double_ℤ (negsuc n) = negsuc (n * 2 + 1)

-- The node saw its primary less than two monitoring intervals ago.
abbrev pub seen_recently : Config → ReplInfo → Bool
seen_recently config info =
    leb_ℤ (pos 0) info.upstream_last_seen
    && ltb_ℤ info.upstream_last_seen (double_ℤ config.monitor_interval_secs)

module _ (config : Config) (world : World) (daemon : Daemon) where
  abbrev pub in_primary_location : NodeInfo → Bool
  in_primary_location node = str_eq node.location daemon.upstream_node_info.location

  -- The node's answer, once it is known to be a standby in recovery or a witness.
  unfoldable pub weigh_sibling : Tally → NodeInfo → ReplInfo → Step
  unfolding compare_candidate
  weigh_sibling tally node info =
      let sees_primary =
        seen_recently config info && info.upstream_node_id ==ℤ daemon.upstream_node_info.node_id in
      let counted = record tally {
        nodes_with_primary_still_visible =
            if sees_primary
            then tally.nodes_with_primary_still_visible + 1
            else tally.nodes_with_primary_still_visible;
      } in
      let rated = record node { last_wal_receive_lsn = info.last_wal_receive_lsn } in
      if is_witness node.type
      then proceed counted node
      else if leb_ℤ node.priority (pos 0)
      then proceed counted node
      else proceed (record counted { candidate = compare_candidate tally.candidate rated }) rated

  -- The replication information of a node with a running repmgrd.
  unfoldable pub interrogate_sibling : Tally → NodeInfo → Option ReplInfo → Step
  unfolding weigh_sibling
  interrogate_sibling tally node none = proceed tally node
  interrogate_sibling tally node (some info) =
      if not info.in_recovery && not (is_witness node.type)
      then (if check_node_can_follow (world.follow_world node)
            daemon.local_node_info.last_wal_receive_lsn
          then cancel node.node_id node
          else proceed tally node)
      else weigh_sibling tally node info

  -- The body of the loop over the sibling nodes.
  unfoldable pub check_sibling : Tally → NodeInfo → Step
  unfolding interrogate_sibling
  check_sibling tally node =
      let up = record node { node_status = node_status_up } in
      let seen = record tally {
        visible_nodes = tally.visible_nodes + 1;
        primary_location_seen = tally.primary_location_seen || in_primary_location node;
      } in
      if world.connects node
      then (if world.repmgrd_get_pid node ==ℤ unknown_pid
          then proceed seen up
          else interrogate_sibling seen up (world.get_replication_info node))
      else proceed tally (record node { node_status = node_status_unknown })

  unfoldable pub scan : Tally → List NodeInfo → Scanned
  scan tally [] = record { new_primary = none; tally = tally; nodes = [] }
  scan tally (node ∷ rest) = elim (check_sibling tally node) [
    | cancel id node' ↦ record { new_primary = some id; tally = tally; nodes = node' ∷ rest }
    | proceed tally' node' ↦
        let tail = scan tally' rest in
        record { new_primary = tail.new_primary; tally = tail.tally; nodes = node' ∷ tail.nodes }
  ]
