-- ===== src/Failover/Order.antt =====
-- The order of the actions of a whole failover: what followers are told, and the WAL receiver.
use repmgr.Base.{
  ◌≡◌, ◌≢◌, refl, inr, ℤ, ◌==ℤ◌, Bool, true, false, Option, none, some, List, [], if◌then◌else◌,
  arith,
}
use repmgr.Nodes.{ms_degraded, NodeInfo, election_rerun_notification}
use repmgr.Election.Siblings.{
  Config, World, Daemon, ElectionResult, election_lost, election_not_candidate, election_rerun,
  FailoverMode, failover_manual, failover_automatic, election_won, election_cancelled,
}
use repmgr.Election.Decide.{
  Election, conclude, hold_election, ready_local, only_candidate, start_election, do_election,
}
use repmgr.Failover.World.{FailoverState, failover_primary_reappeared, Settings, Surroundings}
use repmgr.Failover.Steps.{wait_primary_notification, notified_on, await_notification}
use repmgr.Failover.Primary.{
  Stage, by_mode, after_wait, act_on_result, heed_notification, await_new_primary, act_on_election,
}
use repmgr.Failover.Actions.{
  Told-notify_followers, is_promoted, Orderly, Quiet-nil, Orderly-promote_self,
  Orderly-follow_new_primary,
}

pub do_election-upstream :
    (config : Config) (world : World) (daemon : Daemon)
    → (do_election config world daemon).daemon.upstream_node_info ≡ daemon.upstream_node_info
unfolding do_election start_election only_candidate ready_local hold_election conclude
do_election-upstream config world daemon = ground arith

Orderly-if :
    {lost : ℤ} (b : Bool) (x y : Stage)
    → Orderly lost x.done
    → Orderly lost y.done
    → Orderly lost (if b then x else y).done
Orderly-if true x y hx hy = hx
Orderly-if false x y hx hy = hy

Orderly-idle :
    (lost : ℤ) (state : FailoverState) (daemon : Daemon)
    → is_promoted state ≡ false
    → state ≢ failover_primary_reappeared
    → Orderly lost (record { state = state; daemon = daemon; actions = []; exits = false })
Orderly-idle lost state daemon p r = record {
  shape = inr (p, Quiet-nil lost);
  left = λ h. p;
  upstream = λ h. absurd (r h);
}

module _ (settings : Settings) (around : Surroundings) where
  Orderly-heed_notification :
      (daemon : Daemon) (siblings : List NodeInfo) (id : ℤ)
      → Orderly daemon.upstream_node_info.node_id
          (heed_notification settings around daemon siblings id).done
  unfolding heed_notification by_mode
  Orderly-heed_notification daemon siblings id =
      let lost = daemon.upstream_node_info.node_id in
      Orderly-if (id ==ℤ lost) _ _ (Orderly-idle lost _ daemon refl (λ h. cc h)) (
        Orderly-if (id ==ℤ daemon.local_node_info.node_id) _ _
          (Orderly-promote_self settings around daemon)
          (Orderly-if (id ==ℤ election_rerun_notification) _ _
            (Orderly-idle lost _ daemon refl (λ h. cc h)) (mode settings.election.failover)))
    where
      mode :
          (m : FailoverMode)
          → Orderly daemon.upstream_node_info.node_id
              (by_mode settings around daemon siblings id m).done
      mode failover_manual =
          Orderly-idle daemon.upstream_node_info.node_id _ daemon refl (λ h. cc h)
      mode failover_automatic = Orderly-follow_new_primary settings around daemon id

  Orderly-await_new_primary :
      (daemon : Daemon) (siblings : List NodeInfo)
      → Orderly daemon.upstream_node_info.node_id
          (await_new_primary settings around daemon siblings).done
  unfolding await_new_primary wait_primary_notification after_wait notified_on
  Orderly-await_new_primary daemon siblings =
      notified (await_notification around.notification settings.primary_notification_timeout 0)
    where
      notified :
          (o : Option ℤ)
          → Orderly daemon.upstream_node_info.node_id
              (after_wait settings around siblings (notified_on daemon o)).done
      notified none =
          Orderly-idle daemon.upstream_node_info.node_id _
            (record daemon { monitoring_state = ms_degraded }) refl (λ h. cc h)
      notified (some id) = Orderly-heed_notification daemon siblings id

  pub Orderly-act_on_election :
      (e : Election)
      → Orderly e.daemon.upstream_node_info.node_id (act_on_election settings around e).done
  unfolding act_on_election act_on_result
  Orderly-act_on_election e = acted e.result
    where
      acted :
          (r : ElectionResult)
          → Orderly e.daemon.upstream_node_info.node_id (act_on_result settings around e r).done
      acted election_cancelled =
          Orderly-follow_new_primary settings around e.daemon e.new_primary_id
      acted election_won = Orderly-promote_self settings around e.daemon
      acted election_lost = Orderly-await_new_primary e.daemon e.sibling_nodes
      acted election_not_candidate = Orderly-await_new_primary e.daemon e.sibling_nodes
      acted election_rerun =
          let told =
            Told-notify_followers around election_rerun_notification
              e.daemon.upstream_node_info.node_id in
          record {
            shape = inr (
              refl,
              record {
                receiver = λ l on. (told false e.sibling_nodes refl).receiver l on;
                announced = λ l p. (told p e.sibling_nodes refl).announced l;
                unearned = λ l. (told false e.sibling_nodes refl).unearned l;
                promoted_once =
                    λ l. omega (arith, (told false e.sibling_nodes refl).none_promoted l);
              },
            );
            left = λ h. refl;
            upstream = λ h. absurd (cc h);
          }
