-- ===== src/Election/Outcome.antt =====
-- When `do_election` is won, lost or cancelled, in terms of what the other servers answer.
use repmgr.Base.{
  ℕ, ◌+◌, ◌*◌, ◌<◌, ◌≡◌, sym, ap, ◌∙◌, inl, inr, str_eq, ℤ, ==ℤ_iff, true, ◌&&◌, ◌||◌, Option, none,
  some, List, [], length, count, Option-cases, arith,
}
use repmgr.Nodes.{NodeInfo, ReplInfo}
use repmgr.Election.Siblings.{
  Config, World, Daemon, Tally, election_won, election_cancelled, in_primary_location,
}
use repmgr.Election.Decide.{validated, conclude, hold_election}
use repmgr.Election.Scan.{sees_primary, first_promoted, tally_all, scan-new_primary, scan-tally}
use repmgr.Election.Best.{any, best_of, tally_all-Tallied}

abbrev lsn_of : Option ReplInfo → ℕ
lsn_of none = 0
lsn_of (some info) = info.last_wal_receive_lsn

-- The daemon with the local node's last received LSN filled in.
abbrev pub prepared : World → Daemon → Daemon
prepared world daemon =
    let local = record (daemon.local_node_info) {
      last_wal_receive_lsn = lsn_of world.local_replication_info;
    } in
    record daemon { local_node_info = local }

abbrev pub contender : World → Daemon → NodeInfo
contender world daemon = (prepared world daemon).local_node_info

abbrev pub first_tally : Daemon → Tally
first_tally daemon = record {
  visible_nodes = 1;
  primary_location_seen = str_eq daemon.upstream_node_info.location daemon.local_node_info.location;
  nodes_with_primary_still_visible = 0;
  candidate = daemon.local_node_info;
}

module _ (config : Config) (world : World) where
  -- The conditions under which the loop's tally makes the local node the winner.
  record Carried (daemon : Daemon) (siblings : List NodeInfo) (tally : Tally) : Type 0 where
    located : tally.primary_location_seen ≡ true
    unseen : config.primary_visibility_consensus ≡ true → tally.nodes_with_primary_still_visible ≡ 0
    majority : length siblings + 1 < 2 * tally.visible_nodes
    self : tally.candidate.node_id ≡ daemon.local_node_info.node_id

  conclude-won :
      (daemon : Daemon) (siblings : List NodeInfo) (tally : Tally)
      → (conclude config world daemon siblings tally).0 ≡ election_won
      → Carried daemon siblings tally
  unfolding conclude
  conclude-won daemon siblings tally h =
      ground (arith, ==ℤ_iff tally.candidate.node_id daemon.local_node_info.node_id)

  hold_election-eq :
      (daemon : Daemon) (siblings : List NodeInfo)
      → first_promoted config world daemon siblings ≡ none
      → (hold_election config world daemon siblings).result
        ≡ (conclude config world daemon siblings
            (tally_all config world daemon (first_tally daemon) siblings)).0
  unfolding hold_election
  hold_election-eq daemon siblings h = ground (
    arith,
    scan-new_primary config world daemon (first_tally daemon) siblings,
    scan-tally config world daemon (first_tally daemon) siblings h,
  )

  pub hold_election-cancelled :
      (daemon : Daemon) (siblings : List NodeInfo) (id : ℤ)
      → first_promoted config world daemon siblings ≡ some id
      → ((hold_election config world daemon siblings).result ≡ election_cancelled)
        × ((hold_election config world daemon siblings).new_primary_id ≡ id)
  unfolding hold_election
  hold_election-cancelled daemon siblings id h =
      ground (arith, scan-new_primary config world daemon (first_tally daemon) siblings)

  -- The local node wins over its siblings.
  pub record Victory (daemon : Daemon) (siblings : List NodeInfo) : Type 0 where
    pub no_primary : first_promoted config world daemon siblings ≡ none
    pub location :
        (str_eq daemon.upstream_node_info.location daemon.local_node_info.location
          || any (λ n. world.connects n && in_primary_location config world daemon n) siblings)
        ≡ true
    pub consensus :
        config.primary_visibility_consensus ≡ true
        → count (sees_primary config world daemon) siblings ≡ 0
    pub quorum : length siblings + 1 < 2 * (1 + count world.connects siblings)
    pub best :
        (best_of config world daemon daemon.local_node_info siblings).node_id
        ≡ daemon.local_node_info.node_id

  pub hold_election-Victory :
      (daemon : Daemon) (siblings : List NodeInfo)
      → (hold_election config world daemon siblings).result ≡ election_won
      → Victory daemon siblings
  hold_election-Victory daemon siblings h =
      elim (Option-cases (first_promoted config world daemon siblings)) [
        | inr (id, e) ↦ absurd (cc (hold_election-cancelled daemon siblings id e).0)
        | inl e ↦
            let carried =
              conclude-won daemon siblings
                (tally_all config world daemon (first_tally daemon) siblings)
                (sym (hold_election-eq daemon siblings e) ∙ h) in
            let tallied = tally_all-Tallied config world daemon (first_tally daemon) siblings in
            record {
              no_primary = e;
              location = sym tallied.location_seen ∙ carried.located;
              consensus = λ c. omega (arith, carried.unseen c, tallied.still_visible);
              quorum = omega (arith, carried.majority, tallied.visible);
              best = ap (λ (n : NodeInfo). n.node_id) (sym tallied.best) ∙ carried.self;
            }
      ]

  Victory-Carried :
      (daemon : Daemon) (siblings : List NodeInfo)
      → Victory daemon siblings
      → Carried daemon siblings (tally_all config world daemon (first_tally daemon) siblings)
  Victory-Carried daemon siblings v =
      let tallied = tally_all-Tallied config world daemon (first_tally daemon) siblings in
      record {
        located = tallied.location_seen ∙ v.location;
        unseen = λ c. omega (arith, v.consensus c, tallied.still_visible);
        majority = omega (arith, v.quorum, tallied.visible);
        self = ap (λ (n : NodeInfo). n.node_id) tallied.best ∙ v.best;
      }

  conclude-Carried :
      (daemon : Daemon) (siblings : List NodeInfo) (tally : Tally)
      → config.failover_validation_command ≡ []
      → Carried daemon siblings tally
      → (conclude config world daemon siblings tally).0 ≡ election_won
  unfolding conclude validated
  conclude-Carried daemon siblings tally unset c =
      ground (arith, ==ℤ_iff tally.candidate.node_id daemon.local_node_info.node_id)

  pub Victory-hold_election :
      (daemon : Daemon) (siblings : List NodeInfo)
      → config.failover_validation_command ≡ []
      → Victory daemon siblings
      → (hold_election config world daemon siblings).result ≡ election_won
  Victory-hold_election daemon siblings unset v =
      hold_election-eq daemon siblings v.no_primary
      ∙ conclude-Carried daemon siblings _ unset (Victory-Carried daemon siblings v)
