-- ===== src/Failover/Result.antt =====
-- What `do_primary_failover` returns, and in which state it leaves repmgrd.
use repmgr.Base.{
  ◌≡◌, ◌≢◌, refl, ◌∙◌, ◌⊎◌, inl, inr, ℤ, ◌==ℤ◌, ==ℤ_iff, Bool, true, false, ◌||◌, Option, none,
  some, List, All, if◌then◌else◌, Bool-cases, arith,
}
use repmgr.Nodes.{
  node_status_up, ms_degraded, NodeInfo, unknown_node_id, election_rerun_notification,
}
use repmgr.Election.Siblings.{
  Daemon, ElectionResult, election_lost, election_not_candidate, election_rerun, FailoverMode,
  failover_manual, failover_automatic, election_won, election_cancelled,
}
use repmgr.Election.Decide.{Election, do_election}
use repmgr.Failover.World.{
  FailoverState, failover_promoted, failover_none, failover_unknown, failover_waiting_new_primary,
  failover_follow_new_primary, failover_no_new_primary, failover_node_notification_error,
  failover_local_node_failure, Settings, Surroundings, Action, Done,
}
use repmgr.Failover.Steps.{
  wait_primary_notification, notified_on, run_promotion, promote_self, finish_follow, run_follow,
  follow_new_primary,
}
use repmgr.Failover.Primary.{
  Failover, Stage, by_mode, after_wait, act_on_result, heed_notification, await_new_primary,
  act_on_election, dispatch, settle, called_off, do_primary_failover,
}
use repmgr.Election.Agreement.{All-Any}
use repmgr.Election.Cancelled.{do_election-cancelled}

-- The states in which a stage before the final `switch` can end.
abbrev is_final : FailoverState → Bool
is_final failover_unknown = false
is_final failover_none = false
is_final failover_waiting_new_primary = false
is_final failover_follow_new_primary = false
is_final failover_node_notification_error = false
is_final failover_local_node_failure = false
is_final _ = true

abbrev is_degraded : Daemon → Bool
is_degraded daemon = elim daemon.monitoring_state [ ms_degraded ↦ true | _ ↦ false ]

-- The stage has ended, in degraded monitoring if no new primary has appeared.
record Ended (d : Done) : Type 0 where
  final : (is_final d.state || d.exits) ≡ true
  waited : d.state ≡ failover_no_new_primary → is_degraded d.daemon ≡ true

Ended-if : (b : Bool) (x y : Stage) → Ended x.done → Ended y.done → Ended (if b then x else y).done
Ended-if true x y hx hy = hx
Ended-if false x y hx hy = hy

module _ (settings : Settings) (around : Surroundings) where
  Ended-promote_self : (daemon : Daemon) → Ended (promote_self settings around daemon)
  unfolding promote_self run_promotion
  Ended-promote_self daemon = record { final = ground arith; waited = λ h. ground arith }

  Ended-follow_new_primary :
      (daemon : Daemon) (id : ℤ) → Ended (follow_new_primary settings around daemon id)
  unfolding follow_new_primary run_follow finish_follow
  Ended-follow_new_primary daemon id = record { final = ground arith; waited = λ h. ground arith }

  Ended-by_mode :
      (daemon : Daemon) (siblings : List NodeInfo) (id : ℤ) (m : FailoverMode)
      → Ended (by_mode settings around daemon siblings id m).done
  unfolding by_mode
  Ended-by_mode daemon siblings id failover_manual = record { final = refl; waited = λ h. cc h }
  Ended-by_mode daemon siblings id failover_automatic = Ended-follow_new_primary daemon id

  Ended-heed_notification :
      (daemon : Daemon) (siblings : List NodeInfo) (id : ℤ)
      → Ended (heed_notification settings around daemon siblings id).done
  unfolding heed_notification
  Ended-heed_notification daemon siblings id =
      Ended-if (id ==ℤ daemon.upstream_node_info.node_id) _ _
        (record { final = refl; waited = λ h. cc h })
        (Ended-if (id ==ℤ daemon.local_node_info.node_id) _ _ (Ended-promote_self daemon) (
          Ended-if (id ==ℤ election_rerun_notification) _ _
            (record { final = refl; waited = λ h. cc h })
            (Ended-by_mode daemon siblings id settings.election.failover)))

  Ended-after_wait :
      (daemon : Daemon) (siblings : List NodeInfo) (o : Option ℤ)
      → Ended (after_wait settings around siblings (notified_on daemon o)).done
  unfolding after_wait notified_on
  Ended-after_wait daemon siblings none = record { final = refl; waited = λ h. refl }
  Ended-after_wait daemon siblings (some id) = Ended-heed_notification daemon siblings id

  Ended-await_new_primary :
      (daemon : Daemon) (siblings : List NodeInfo)
      → Ended (await_new_primary settings around daemon siblings).done
  unfolding await_new_primary wait_primary_notification
  Ended-await_new_primary daemon siblings = Ended-after_wait daemon siblings _

  Ended-act_on_result :
      (e : Election) (r : ElectionResult) → Ended (act_on_result settings around e r).done
  unfolding act_on_result
  Ended-act_on_result e election_cancelled = Ended-follow_new_primary e.daemon e.new_primary_id
  Ended-act_on_result e election_won = Ended-promote_self e.daemon
  Ended-act_on_result e election_lost = Ended-await_new_primary e.daemon e.sibling_nodes
  Ended-act_on_result e election_not_candidate = Ended-await_new_primary e.daemon e.sibling_nodes
  Ended-act_on_result e election_rerun = record { final = refl; waited = λ h. cc h }

  -- What a failover does: it returns success, with no failover pending; or failure, in degraded
  -- monitoring or with the primary marked as up so that the election is rerun; or it ends the
  -- program.
  abbrev pub Answered : Failover → Type 0
  Answered f =
      ((f.final_result ≡ true) × (f.state ≡ failover_none))
      ⊎ ((f.final_result ≡ false)
          × ((f.daemon.monitoring_state ≡ ms_degraded)
              ⊎ ((f.exits ≡ true)
                  ⊎ ((f.state ≡ failover_none)
                      × (f.daemon.upstream_node_info.node_status ≡ node_status_up)))))

  Answered-dispatch :
      (state : FailoverState) (d : Done) (siblings : List NodeInfo) (a : List Action)
      → d.state ≡ state
      → d.exits ≡ false
      → Ended d
      → Answered (dispatch settings around state d.daemon siblings a)
  unfolding dispatch
  Answered-dispatch failover_promoted d siblings a e on h = inl (refl, refl)
  Answered-dispatch _ d siblings a e on h = ground (arith, on, h.final, h.waited)

  Answered-settle :
      (s : Stage) (before : List Action) → Ended s.done → Answered (settle settings around s before)
  unfolding settle
  Answered-settle s before h = elim (Bool-cases s.done.exits) [
    | inl gone ↦ rw gone (inr (refl, inr (inl refl)))
    | inr on ↦ rw on (Answered-dispatch s.done.state s.done _ _ refl on h)
  ]

  Degraded-called_off :
      (daemon : Daemon)
      → All (λ n. n.node_id ≢ unknown_node_id) around.election.active_sibling_nodes
      → called_off settings around (do_election settings.election around.election daemon) ≡ true
      → (do_election settings.election around.election daemon).daemon.monitoring_state ≡ ms_degraded
  Degraded-called_off daemon known off =
      let e = do_election settings.election around.election daemon in
      let cancelled : e.result ≡ election_cancelled = ground (arith, off) in
      let unknown : e.new_primary_id ≡ unknown_node_id =
        ground (arith, off, cancelled, ==ℤ_iff e.new_primary_id unknown_node_id) in
      elim (do_election-cancelled settings.election around.election daemon cancelled) [
        | inr (_, degraded, _) ↦ degraded
        | inl found ↦
            let (n, ne, (_, same)) = All-Any around.election.active_sibling_nodes known found in
            absurd (ne (same ∙ unknown))
      ]

  -- When no sibling has the ID that stands for no node, a failover either succeeds with nothing left
  -- pending, or fails into degraded monitoring, unless the election is to be rerun or the program
  -- ends as the connection to the local node is lost.
  pub do_primary_failover-Answered :
      (daemon : Daemon)
      → All (λ n. n.node_id ≢ unknown_node_id) around.election.active_sibling_nodes
      → Answered (do_primary_failover settings around daemon)
  unfolding do_primary_failover act_on_election
  do_primary_failover-Answered daemon known =
      let e = do_election settings.election around.election daemon in
      elim (Bool-cases (called_off settings around e)) [
        | inl off ↦ rw off (inr (refl, inl (Degraded-called_off daemon known off)))
        | inr on ↦ rw on (
            Answered-settle (act_on_result settings around e e.result) _
              (Ended-act_on_result e e.result))
      ]
