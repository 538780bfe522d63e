-- ===== src/Election/Cancelled.antt =====
-- Why `do_election` is cancelled, and when `check_node_can_follow` lets a node be followed.
use repmgr.Base.{
  ◌+◌, ◌<◌, ◌≤◌, ◌≡◌, ◌↔◌, sym, ap, ◌∙◌, ◌⊎◌, inl, inr, ℤ, true, none, some, List, [], ◌∷◌,
  Bool-cases, Option-cases, arith,
}
use mathlib.Core.Path.{subst}
use repmgr.Nodes.{NodeInfo, ms_degraded, unknown_node_id, Lsn}
use repmgr.Election.Follow.{FollowWorld, SystemIdentification, check_node_can_follow}
use repmgr.Election.Siblings.{Config, World, Daemon, Tally, election_cancelled, scan}
use repmgr.Election.Decide.{
  Election, execute_failover_validation_command, validated, conclude, hold_election, ready_local,
  only_candidate, start_election, do_election,
}
use repmgr.Election.Scan.{promoted, first_promoted, scan-new_primary}
use repmgr.Election.Best.{Any}
use repmgr.Election.Outcome.{prepared, first_tally}

module _ (config : Config) (world : World) where
  -- The sibling has this ID and is a primary that the local node can follow.
  abbrev pub IsNewPrimary : Daemon → ℤ → NodeInfo → Type 0
  IsNewPrimary daemon id n = (promoted world daemon n ≡ true) × (n.node_id ≡ id)

  first_promoted-Any :
      (daemon : Daemon) (nodes : List NodeInfo) (id : ℤ)
      → first_promoted config world daemon nodes ≡ some id
      → Any (IsNewPrimary daemon id) nodes
  first_promoted-Any daemon [] id h = absurd (cc h)
  first_promoted-Any daemon (node ∷ rest) id h = elim (Bool-cases (promoted world daemon node)) [
    | inl here ↦ inl (here, ground (arith, here))
    | inr passed ↦ inr (first_promoted-Any daemon rest id (rw passed at h))
  ]

  -- What a cancelled election leaves behind.
  abbrev pub Reason : Daemon → List NodeInfo → Election → Type 0
  Reason daemon siblings e =
      Any (IsNewPrimary daemon e.new_primary_id) siblings
      ⊎ ((e.new_primary_id ≡ unknown_node_id)
          × (e.daemon.monitoring_state ≡ ms_degraded)
          × (e.daemon.voting_reset ≡ true))

  conclude-cancelled :
      (daemon : Daemon) (siblings : List NodeInfo) (tally : Tally)
      → (conclude config world daemon siblings tally).0 ≡ election_cancelled
      → ((conclude config world daemon siblings tally).1.monitoring_state ≡ ms_degraded)
        × ((conclude config world daemon siblings tally).1.voting_reset ≡ true)
  unfolding conclude validated execute_failover_validation_command
  conclude-cancelled daemon siblings tally h = ground arith

  hold_election-new_primary :
      (daemon : Daemon) (siblings : List NodeInfo) (id : ℤ)
      → first_promoted config world daemon siblings ≡ some id
      → (hold_election config world daemon siblings).new_primary_id ≡ id
  unfolding hold_election
  hold_election-new_primary daemon siblings id h =
      ground (arith, scan-new_primary config world daemon (first_tally daemon) siblings)

  hold_election-degraded :
      (daemon : Daemon) (siblings : List NodeInfo)
      → first_promoted config world daemon siblings ≡ none
      → (hold_election config world daemon siblings).result ≡ election_cancelled
      → let e = hold_election config world daemon siblings in
        (e.new_primary_id ≡ unknown_node_id)
        × (e.daemon.monitoring_state ≡ ms_degraded)
        × (e.daemon.voting_reset ≡ true)
  unfolding hold_election
  hold_election-degraded daemon siblings h c = ground (
    arith,
    scan-new_primary config world daemon (first_tally daemon) siblings,
    conclude-cancelled daemon siblings
        (scan config world daemon (first_tally daemon) siblings).tally,
  )

  hold_election-Reason :
      (daemon : Daemon) (siblings : List NodeInfo)
      → (hold_election config world daemon siblings).result ≡ election_cancelled
      → Reason daemon siblings (hold_election config world daemon siblings)
  hold_election-Reason daemon siblings c =
      elim (Option-cases (first_promoted config world daemon siblings)) [
        | inl e ↦ inr (hold_election-degraded daemon siblings e c)
        | inr (id, e) ↦ inl (
            first_promoted-Any daemon siblings _
              (e ∙ ap some (sym (hold_election-new_primary daemon siblings id e))))
      ]

  do_election-held :
      (daemon : Daemon)
      → (do_election config world daemon).result ≡ election_cancelled
      → do_election config world daemon
        ≡ hold_election config world (prepared world daemon) world.active_sibling_nodes
  unfolding do_election start_election ready_local only_candidate validated
      execute_failover_validation_command
  do_election-held daemon c = ground arith

  -- A cancelled election has found a reachable sibling that is a primary which the local node can
  -- follow, and returns its ID; or it returns no ID, has put repmgrd into degraded monitoring and
  -- has reset the voting status.
  pub do_election-cancelled :
      (daemon : Daemon)
      → (do_election config world daemon).result ≡ election_cancelled
      → Reason (prepared world daemon) world.active_sibling_nodes (do_election config world daemon)
  do_election-cancelled daemon c =
      let held = do_election-held daemon c in
      subst (λ e. Reason (prepared world daemon) world.active_sibling_nodes e) (sym held)
        (hold_election-Reason (prepared world daemon) world.active_sibling_nodes
          (ap (λ (e : Election). e.result) (sym held) ∙ c))

-- The target's history lets a node at this position attach: on the local node's timeline the
-- target has got at least as far, and from a later timeline the target forked off at or after it.
abbrev pub Attachable : FollowWorld → Lsn → SystemIdentification → SystemIdentification → Type 0
Attachable world position local target =
    (target.system_identifier ≡ local.system_identifier)
    × (((target.timeline ≡ local.timeline)
          × (0 < position)
          × (0 < world.target_current_lsn)
          × (position ≤ world.target_current_lsn))
        ⊎ ((local.timeline < target.timeline)
            × ((end : Lsn) × (world.timeline_end (local.timeline + 1) ≡ some end)
                × (position ≤ end))))

-- With both systems identified, a node can be followed exactly when it belongs to the same
-- replication cluster and the local node's position lies on the target's history.
pub can_follow_iff :
    (world : FollowWorld) (position : Lsn) (local target : SystemIdentification)
    → world.local_connects ≡ true
    → world.target_connects ≡ true
    → world.local_identification ≡ some local
    → world.target_identification ≡ some target
    → (check_node_can_follow world position ≡ true) ↔ Attachable world position local target
unfolding check_node_can_follow
can_follow_iff world position local target lc tc li ti = (λ h. ground arith, λ h. ground arith)
