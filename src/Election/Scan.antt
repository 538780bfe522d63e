-- ===== src/Election/Scan.antt =====
-- What the loop of `do_election` over the sibling nodes computes: the counts of the nodes that
-- it reaches, and the highest-ranking candidate.
use repmgr.Base.{
  ◌+◌, ◌≡◌, refl, inl, inr, ℤ, pos, leb_ℤ, ◌==ℤ◌, Bool, true, false, not, ◌&&◌, ◌||◌, Option, none,
  some, List, [], ◌∷◌, if◌then◌else◌, Bool-cases, arith,
}
use repmgr.Nodes.{NodeInfo, ReplInfo, node_status_unknown, node_status_up, unknown_pid, is_witness}
use repmgr.Election.Follow.{check_node_can_follow}
use repmgr.Election.Siblings.{
  Config, World, Daemon, Tally, cancel, proceed, compare_candidate, seen_recently,
  in_primary_location, check_sibling, scan,
}

abbrev pub up : NodeInfo → NodeInfo
up node = record node { node_status = node_status_up }

abbrev pub rated : NodeInfo → ReplInfo → NodeInfo
rated node info = record node {
  node_status = node_status_up;
  last_wal_receive_lsn = info.last_wal_receive_lsn;
}

-- The replication information of a node that is reachable and has a running repmgrd.
abbrev pub answer : World → NodeInfo → Option ReplInfo
answer world node =
    if world.connects node && not (world.repmgrd_get_pid node ==ℤ unknown_pid)
    then world.get_replication_info node
    else none

abbrev promoted_on : World → Daemon → NodeInfo → Option ReplInfo → Bool
promoted_on world daemon node none = false
promoted_on world daemon node (some info) =
    not info.in_recovery
    && not (is_witness node.type)
    && check_node_can_follow (world.follow_world (up node))
        daemon.local_node_info.last_wal_receive_lsn

-- The node is a primary already, and the local node can follow it.
abbrev pub promoted : World → Daemon → NodeInfo → Bool
promoted world daemon node = promoted_on world daemon node (answer world node)

abbrev candidate_on : NodeInfo → Option ReplInfo → Option NodeInfo
candidate_on node none = none
candidate_on node (some info) =
    if info.in_recovery && not (is_witness node.type) && not (leb_ℤ node.priority (pos 0))
    then some (rated node info)
    else none

-- The node as a promotion candidate, if it is one.
abbrev pub candidacy : World → NodeInfo → Option NodeInfo
candidacy world node = candidate_on node (answer world node)

abbrev sees_on : Config → Daemon → NodeInfo → Option ReplInfo → Bool
sees_on config daemon node none = false
sees_on config daemon node (some info) =
    (info.in_recovery || is_witness node.type)
    && seen_recently config info
    && info.upstream_node_id ==ℤ daemon.upstream_node_info.node_id

-- The node reports that it has seen the local node's primary recently.
abbrev pub sees_primary : Config → World → Daemon → NodeInfo → Bool
sees_primary config world daemon node = sees_on config daemon node (answer world node)

abbrev pub rival : NodeInfo → Option NodeInfo → NodeInfo
rival c none = c
rival c (some n) = compare_candidate c n

abbrev record_on : NodeInfo → Option NodeInfo → NodeInfo
record_on node none = node
record_on node (some rated_node) = rated_node

module _ (config : Config) (world : World) (daemon : Daemon) where
  -- The tally after one more node.
  abbrev pub tallied : Tally → NodeInfo → Tally
  tallied t node = record {
    visible_nodes = if world.connects node then t.visible_nodes + 1 else t.visible_nodes;
    primary_location_seen =
        t.primary_location_seen
        || (world.connects node && in_primary_location config world daemon node);
    nodes_with_primary_still_visible =
        if sees_primary config world daemon node
        then t.nodes_with_primary_still_visible + 1
        else t.nodes_with_primary_still_visible;
    candidate = rival t.candidate (candidacy world node);
  }

  -- The sibling's record after the loop's step.
  abbrev updated : NodeInfo → NodeInfo
  updated node =
      if world.connects node
      then record_on (up node) (candidacy world node)
      else record node { node_status = node_status_unknown }

  check_sibling_lem :
      (t : Tally) (node : NodeInfo)
      → check_sibling config world daemon t node ≡ (
          if promoted world daemon node
          then cancel node.node_id (up node)
          else proceed (tallied t node) (updated node))
  unfolding check_sibling
  check_sibling_lem t node = ground arith

  -- The ID of the first sibling that has become a primary and can be followed.
  abbrev pub first_promoted : List NodeInfo → Option ℤ
  first_promoted [] = none
  first_promoted (node ∷ rest) =
      let later = first_promoted rest in
      if promoted world daemon node then some node.node_id else later

  abbrev pub tally_all : Tally → List NodeInfo → Tally
  tally_all t [] = t
  tally_all t (node ∷ rest) = tally_all (tallied t node) rest

  scan-promoted :
      (t : Tally) (node : NodeInfo) (rest : List NodeInfo)
      → promoted world daemon node ≡ true
      → (scan config world daemon t (node ∷ rest)).new_primary ≡ some node.node_id
  unfolding scan
  scan-promoted t node rest h = rw (check_sibling_lem t node, h, scan)

  scan-passed :
      (t : Tally) (node : NodeInfo) (rest : List NodeInfo)
      → promoted world daemon node ≡ false
      → let tail = scan config world daemon (tallied t node) rest in
        scan config world daemon t (node ∷ rest) ≡ record {
          new_primary = tail.new_primary;
          tally = tail.tally;
          nodes = updated node ∷ tail.nodes;
        }
  unfolding scan
  scan-passed t node rest h = rw (check_sibling_lem t node, h, scan)

  -- The loop is broken off exactly by the first sibling that has become a primary that the local
  -- node can follow.
  pub scan-new_primary :
      (t : Tally) (nodes : List NodeInfo)
      → (scan config world daemon t nodes).new_primary ≡ first_promoted nodes
  unfolding scan
  scan-new_primary t [] = refl
  scan-new_primary t (node ∷ rest) = elim (Bool-cases (promoted world daemon node)) [
    | inl yes_it_is ↦ rw yes_it_is (scan-promoted t node rest yes_it_is)
    | inr passed ↦
        rw (scan-passed t node rest passed, passed) (scan-new_primary (tallied t node) rest)
  ]

  -- A loop that is not broken off tallies every sibling.
  pub scan-tally :
      (t : Tally) (nodes : List NodeInfo)
      → first_promoted nodes ≡ none
      → (scan config world daemon t nodes).tally ≡ tally_all t nodes
  unfolding scan
  scan-tally t [] h = refl
  scan-tally t (node ∷ rest) h = elim (Bool-cases (promoted world daemon node)) [
    | inl yes_it_is ↦ absurd (ground (arith, yes_it_is))
    | inr passed ↦
        rw (scan-passed t node rest passed) (scan-tally (tallied t node) rest (rw passed at h))
  ]
