-- ===== src/Examples/Elections.antt =====
-- Elections of a small cluster: node 1 is the lost primary, nodes 2 and 3 are its standbys.
use mathlib.Core.List.Perm
use repmgr.Base.{ℕ, ◌≡◌, ◌≢◌, ◌↔◌, ◌&&◌, refl, inl, pos, Bool, true, false, some, [], ◌∷◌, codes}
use repmgr.Nodes.{NodeInfo, ReplInfo, standby, node_status_unknown, ms_normal}
use repmgr.Election.Follow.{FollowWorld, SystemIdentification, check_node_can_follow}
use repmgr.Election.Siblings.{
  Config, World, Daemon, failover_automatic, election_won, election_lost, election_cancelled, scan,
  check_sibling,
}
use repmgr.Election.Decide.{
  do_election, start_election, ready_local, hold_election, conclude, validated,
}
use repmgr.Election.Best.{Any}
use repmgr.Election.Outcome.{prepared}
use repmgr.Election.Agreement.{election_agreement}
use repmgr.Election.Quorum.{reaches, quorum_overlap}
use repmgr.Election.Cancelled.{Reason, do_election-cancelled, Attachable, can_follow_iff}

abbrev pub node : ℕ → NodeInfo
node id = record {
  node_id = pos id;
  upstream_node_id = pos 1;
  type = standby;
  node_name = codes "node";
  location = "default";
  priority = pos 100;
  last_wal_receive_lsn = 0;
  active = true;
  node_status = node_status_unknown;
}

abbrev info : ℕ → Bool → ReplInfo
info lsn recovering = record {
  in_recovery = recovering;
  last_wal_receive_lsn = lsn;
  last_wal_replay_lsn = lsn;
  wal_replay_paused = false;
  upstream_last_seen = pos 60;
  upstream_node_id = pos 1;
}

abbrev system : ℕ → SystemIdentification
system timeline = record { system_identifier = 77; timeline = timeline }

-- The target of a follow: promoted to timeline 2, which forked off at 500.
abbrev target : FollowWorld
target = record {
  local_connects = true;
  local_identification = some (system 1);
  target_connects = true;
  target_identification = some (system 2);
  target_current_lsn = 600;
  timeline_end = λ t. some 500;
}

abbrev pub config : Config
config = record {
  failover = failover_automatic;
  monitor_interval_secs = pos 2;
  primary_visibility_consensus = true;
  failover_validation_command = [];
}

abbrev pub daemon : ℕ → Daemon
daemon id = record {
  local_node_info = node id;
  upstream_node_info = node 1;
  monitoring_state = ms_normal;
  voting_reset = false;
}

-- What a node at one LSN sees of a sibling at another, which may have left recovery.
abbrev world : ℕ → NodeInfo → ℕ → Bool → World
world mine sibling theirs recovering = record {
  get_current_term = pos 1;
  active_sibling_nodes = sibling ∷ [];
  all_nodes_count = 3;
  local_replication_info = some (info mine true);
  resume_wal_replay = true;
  connects = λ n. true;
  repmgrd_get_pid = λ n. pos 4242;
  get_replication_info = λ n. some (info theirs recovering);
  follow_world = λ n. target;
  command_return_value = λ c. pos 0;
}

-- Node 3 has more WAL than node 2.
abbrev pub world2 : World
world2 = world 400 (node 3) 450 true

abbrev pub world3 : World
world3 = world 450 (node 2) 400 true

node3_wins : (do_election config world3 (daemon 3)).result ≡ election_won
unfolding do_election start_election ready_local hold_election conclude validated scan check_sibling
node3_wins = refl

node2_loses : (do_election config world2 (daemon 2)).result ≡ election_lost
unfolding do_election start_election ready_local hold_election conclude validated scan check_sibling
node2_loses = refl

-- Node 3 was promoted by hand.
abbrev world_promoted : World
world_promoted = world 400 (node 3) 600 false

node2_follows : (do_election config world_promoted (daemon 2)).result ≡ election_cancelled
unfolding do_election start_election ready_local hold_election scan check_sibling
    check_node_can_follow
node2_follows = refl

ids_differ : pos 3 ≢ pos 2
ids_differ e = cc e

election_agreement_example : (do_election config world2 (daemon 2)).result ≢ election_won
election_agreement_example =
    election_agreement config config world3 world2 (daemon 3) (daemon 2) ids_differ
      ((λ e. cc e), tt) ((λ e. cc e), tt) (inl (_, refl, refl, refl, refl))
      (inl (_, refl, refl, refl, refl)) node3_wins

-- A standby with another view of the same two nodes, which it wins by mistake.
abbrev world2_ahead : World
world2_ahead = world 450 (node 3) 400 true

node2_wins : (do_election config world2_ahead (daemon 2)).result ≡ election_won
unfolding do_election start_election ready_local hold_election conclude validated scan check_sibling
node2_wins = refl

quorum_overlap_example :
    Any
      (λ n. (reaches world3 (daemon 3) n && reaches world2_ahead (daemon 2) n) ≡ true)
      (node 3 ∷ node 2 ∷ [])
quorum_overlap_example =
    quorum_overlap config config world3 world2_ahead (daemon 3) (daemon 2) (node 3) (node 2) refl
      refl (Perm.swap (node 2) (node 3) []) node3_wins node2_wins

do_election-cancelled_example :
    Reason config world_promoted
      (prepared world_promoted (daemon 2))
      (node 3 ∷ [])
      (do_election config world_promoted (daemon 2))
do_election-cancelled_example = do_election-cancelled config world_promoted (daemon 2) node2_follows

can_follow_iff_example :
    (check_node_can_follow target 400 ≡ true) ↔ Attachable target 400 (system 1) (system 2)
can_follow_iff_example = can_follow_iff target 400 (system 1) (system 2) refl refl refl refl
