-- ===== src/Failover/Primary.antt =====
-- `do_primary_failover` of repmgrd-physical.c.
use repmgr.Base.{
  ℤ, ◌==ℤ◌, Bool, true, false, Option, none, some, List, [], ◌∷◌, ◌++◌, ltb, if◌then◌else◌,
}
use repmgr.Nodes.{
  NodeInfo, node_status_up, ms_degraded, unknown_node_id, election_rerun_notification,
}
use repmgr.Election.Siblings.{
  Daemon, FailoverMode, failover_manual, failover_automatic, ElectionResult, election_not_candidate,
  election_won, election_lost, election_cancelled, election_rerun,
}
use repmgr.Election.Decide.{Election, do_election}
use repmgr.Failover.World.{
  FailoverState, failover_unknown, failover_none, failover_promoted, failover_promotion_failed,
  failover_primary_reappeared, failover_requires_manual, failover_followed_new_primary,
  failover_following_original_primary, failover_no_new_primary, failover_follow_fail,
  failover_election_rerun, Settings, Surroundings, Action, disable_wal_receiver,
  enable_wal_receiver, Done,
}
use repmgr.Failover.Steps.{
  wait_primary_notification, promote_self, notify_followers, follow_new_primary,
}

-- What `do_primary_failover` returns and leaves behind; where `exits` is set the program has ended
-- within it, and it has returned nothing.
pub record Failover : Type 0 where
  pub exits : Bool
  pub final_result : Bool
  pub state : FailoverState
  pub daemon : Daemon
  pub actions : List Action

-- A step of the failover with the list `sibling_nodes` that it leaves.
pub record Stage : Type 0 where
  pub done : Done
  pub sibling_nodes : List NodeInfo

module _ (settings : Settings) (around : Surroundings) where
  abbrev stage : FailoverState → Daemon → List NodeInfo → Stage
  stage state daemon siblings = record {
    done = record { exits = false; state = state; daemon = daemon; actions = [] };
    sibling_nodes = siblings;
  }

  -- Another node is the new primary.
  unfoldable pub by_mode : Daemon → List NodeInfo → ℤ → FailoverMode → Stage
  by_mode daemon siblings new_primary_id failover_manual =
      stage failover_requires_manual daemon siblings
  by_mode daemon siblings new_primary_id failover_automatic = record {
    done = follow_new_primary settings around daemon new_primary_id;
    sibling_nodes = siblings;
  }

  -- A notification that names `new_primary_id` has arrived.
  unfoldable pub heed_notification : Daemon → List NodeInfo → ℤ → Stage
  heed_notification daemon siblings new_primary_id =
      if new_primary_id ==ℤ daemon.upstream_node_info.node_id
      then stage failover_following_original_primary daemon siblings
      else if new_primary_id ==ℤ daemon.local_node_info.node_id
      then record {
        done = promote_self settings around daemon;
        sibling_nodes = around.sibling_nodes_promoted;
      }
      else if new_primary_id ==ℤ election_rerun_notification
      then stage failover_election_rerun daemon siblings
      else by_mode daemon siblings new_primary_id settings.election.failover

  unfoldable pub after_wait : List NodeInfo → Option ℤ × Daemon → Stage
  after_wait siblings (none, daemon) = stage failover_no_new_primary daemon siblings
  after_wait siblings (some id, daemon) = heed_notification daemon siblings id

  unfoldable pub await_new_primary : Daemon → List NodeInfo → Stage
  await_new_primary daemon siblings =
      after_wait siblings (wait_primary_notification settings around daemon)

  -- What the node does with the result of an election that was not cancelled for want of a primary.
  unfoldable pub act_on_result : Election → ElectionResult → Stage
  act_on_result e election_cancelled = record {
    done = follow_new_primary settings around e.daemon e.new_primary_id;
    sibling_nodes = e.sibling_nodes;
  }
  act_on_result e election_rerun = record {
    done = record {
      exits = false;
      state = failover_election_rerun;
      daemon = e.daemon;
      actions = notify_followers around e.sibling_nodes election_rerun_notification;
    };
    sibling_nodes = e.sibling_nodes;
  }
  act_on_result e election_won = record {
    done = promote_self settings around e.daemon;
    sibling_nodes = e.sibling_nodes;
  }
  act_on_result e election_lost = await_new_primary e.daemon e.sibling_nodes
  act_on_result e election_not_candidate = await_new_primary e.daemon e.sibling_nodes

  unfoldable pub act_on_election : Election → Stage
  act_on_election e = act_on_result e e.result

  abbrev conclude_with : Bool → FailoverState → Daemon → List Action → Failover
  conclude_with final_result state daemon actions = record {
    exits = false;
    final_result = final_result;
    state = state;
    daemon = daemon;
    actions = actions;
  }

  abbrev degrade : Daemon → Daemon
  degrade daemon = record daemon { monitoring_state = ms_degraded }

  -- The final `switch` on the failover state.
  unfoldable pub dispatch : FailoverState → Daemon → List NodeInfo → List Action → Failover
  dispatch failover_promoted d siblings a =
      conclude_with true failover_none d
        (a ++ notify_followers around siblings d.local_node_info.node_id)
  dispatch failover_election_rerun d siblings a =
      let upstream = record (d.upstream_node_info) { node_status = node_status_up } in
      conclude_with false failover_none (record d { upstream_node_info = upstream }) a
  dispatch failover_primary_reappeared d siblings a =
      conclude_with true failover_none d
        (a ++ notify_followers around siblings d.upstream_node_info.node_id)
  dispatch failover_followed_new_primary d siblings a = conclude_with true failover_none d a
  dispatch failover_following_original_primary d siblings a = conclude_with true failover_none d a
  dispatch failover_promotion_failed d siblings a =
      conclude_with false failover_promotion_failed (degrade d) a
  dispatch failover_follow_fail d siblings a =
      conclude_with false failover_follow_fail (degrade d) a
  dispatch failover_requires_manual d siblings a =
      conclude_with false failover_requires_manual (degrade d) a
  dispatch state d siblings a = conclude_with false state d a

  unfoldable pub settle : Stage → List Action → Failover
  settle s before =
      let a = before ++ s.done.actions in
      if s.done.exits
      then record {
        exits = true;
        final_result = false;
        state = s.done.state;
        daemon = s.done.daemon;
        actions = a;
      }
      else dispatch s.done.state s.done.daemon s.sibling_nodes a

  -- The part before the election that disables the WAL receiver, if that is requested.
  unfoldable pub disconnect : List Action
  disconnect =
      if settings.standby_disconnect_on_failover
      then (if ltb around.server_version_num 90500 then [] else disable_wal_receiver ∷ [])
      else []

  unfoldable pub reconnect : List Action
  reconnect = if settings.standby_disconnect_on_failover then enable_wal_receiver ∷ [] else []

  -- The election found no primary, and is over.
  abbrev pub called_off : Election → Bool
  called_off e = elim e.result [
    | election_cancelled ↦ e.new_primary_id ==ℤ unknown_node_id
    | _ ↦ false
  ]

  unfoldable pub do_primary_failover : Daemon → Failover
  do_primary_failover daemon =
      let e = do_election settings.election around.election daemon in
      let before = disconnect ++ reconnect in
      if called_off e
      then conclude_with false failover_unknown e.daemon before
      else settle (act_on_election e) before
