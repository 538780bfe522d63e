-- ===== src/Election/Winner.antt =====
-- When the local node wins `do_election`.
use repmgr.Base.{
  ◌≡◌, refl, sym, inl, inr, pos, negsuc, leb_ℤ, ◌==ℤ◌, Bool, true, false, not, ◌&&◌, Option, none,
  some, List, [], ◌∷◌, List-cases, arith,
}
use mathlib.Core.Path.{subst}
use repmgr.Nodes.{NodeInfo, ReplInfo}
use repmgr.Election.Siblings.{Config, World, Daemon, election_won, failover_automatic}
use repmgr.Election.Decide.{hold_election, ready_local, only_candidate, start_election, do_election}
use repmgr.Election.Outcome.{prepared, Victory, hold_election-Victory}

abbrev ready_on : World → List NodeInfo → Option ReplInfo → Bool
ready_on world [] info = true
ready_on world (node ∷ rest) none = false
ready_on world (node ∷ rest) (some info) =
    not (info.wal_replay_paused && not world.resume_wal_replay)

module _ (config : Config) (world : World) (daemon : Daemon) where
  -- The local node may stand for election: the electoral term is known, failover is automatic,
  -- its priority is positive, and, if there are siblings, its replication information is known
  -- and its WAL replay not paused for good.
  pub record MayStand : Type 0 where
    pub term : (world.get_current_term ==ℤ negsuc 0) ≡ false
    pub automatic : config.failover ≡ failover_automatic
    pub positive : leb_ℤ daemon.local_node_info.priority (pos 0) ≡ false
    pub ready : ready_on world world.active_sibling_nodes world.local_replication_info ≡ true

  do_election-stands :
      (config.failover ≡ failover_automatic)
      → (world.get_current_term ==ℤ negsuc 0) ≡ false
      → leb_ℤ daemon.local_node_info.priority (pos 0) ≡ false
      → (node : NodeInfo) (rest : List NodeInfo) → world.active_sibling_nodes ≡ node ∷ rest
      → (do_election config world daemon).result ≡ election_won
      → (ready_on world (node ∷ rest) world.local_replication_info ≡ true)
        × ((hold_election config world (prepared world daemon) (node ∷ rest)).result ≡ election_won)
  unfolding do_election start_election ready_local
  do_election-stands automatic term positive node rest e h = ground arith

  do_election-admitted :
      (do_election config world daemon).result ≡ election_won
      → (config.failover ≡ failover_automatic)
        × ((world.get_current_term ==ℤ negsuc 0) ≡ false)
        × (leb_ℤ daemon.local_node_info.priority (pos 0) ≡ false)
  unfolding do_election
  do_election-admitted h = ground arith

  do_election-alone :
      world.active_sibling_nodes ≡ []
      → (do_election config world daemon).result ≡ election_won
      → Victory config world (prepared world daemon) []
  unfolding do_election start_election only_candidate
  do_election-alone e h = record {
    no_primary = refl;
    location = ground arith;
    consensus = λ c. refl;
    quorum = omega arith;
    best = refl;
  }

  abbrev pub Victorious : List NodeInfo → Type 0
  Victorious siblings = Victory config world (prepared world daemon) siblings

  pub do_election-Victory :
      (do_election config world daemon).result ≡ election_won
      → MayStand × Victory config world (prepared world daemon) world.active_sibling_nodes
  do_election-Victory h =
      let (automatic, term, positive) = do_election-admitted h in
      elim (List-cases world.active_sibling_nodes) [
        | inl e ↦ (
          record { term = term; automatic = automatic; positive = positive; ready = rw e },
          subst Victorious (sym e) (do_election-alone e h),
        )
        | inr (node, rest, e) ↦
            let (ready, won) = do_election-stands automatic term positive node rest e h in
            (
              record {
                term = term;
                automatic = automatic;
                positive = positive;
                ready = rw e ready;
              },
              subst Victorious (sym e)
                  (hold_election-Victory config world (prepared world daemon) (node ∷ rest) won),
            )
      ]
