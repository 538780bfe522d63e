-- ===== src/Examples/Failovers.antt =====
-- Failovers of the small cluster of Examples/Elections.antt.
use repmgr.Base.{
  ℕ, suc, ◌≡◌, refl, pos, Bool, true, false, none, some, [], ◌∷◌, codes, if◌then◌else◌,
}
use repmgr.Election.Siblings.{World, scan, check_sibling}
use repmgr.Election.Decide.{
  do_election, start_election, ready_local, hold_election, conclude, validated,
}
use repmgr.Failover.World.{
  Settings, value, null, exited, is_primary, Surroundings, disable_wal_receiver,
  enable_wal_receiver, run_promote_command, increment_current_term, notify_follow_primary,
}
use repmgr.Failover.Receivers.{await_receivers, some_running, await_receivers_first_round}
use repmgr.Failover.Steps.{promote_self, run_promotion, notify_followers}
use repmgr.Failover.Primary.{
  act_on_election, act_on_result, dispatch, settle, disconnect, reconnect, do_primary_failover,
}
use repmgr.Failover.Result.{Answered, do_primary_failover-Answered}
use repmgr.Examples.Elections.{node, daemon, config, world2, world3}

abbrev pub settings : Settings
settings = record {
  election = config;
  standby_disconnect_on_failover = true;
  sibling_nodes_disconnect_timeout = 30;
  always_promote = false;
  follow_command = codes "follow %n";
  primary_notification_timeout = 60;
  repmgrd_standby_startup_timeout = 60;
}

abbrev pub around : World → Surroundings
around world = record {
  election = world;
  server_version_num = 120000;
  check_sibling_nodes = world.active_sibling_nodes;
  wal_receiver_pid = λ second n. some (pos 900);
  notification = λ second. if◌then◌else◌ (second_five second) (value (pos 3)) null;
  node_record = λ id. some (node 1);
  promote_exit = exited 0;
  local_connection = true;
  local_reconnects = true;
  primary_connection = none;
  local_record_promoted = none;
  sibling_nodes_promoted = world.active_sibling_nodes;
  notifiable = λ n. true;
  new_primary = λ n. is_primary;
  old_primary = λ n. is_primary;
  follow_exit = λ c. pos 0;
  record_on_primary = λ id. some (node 3);
  local_starts = λ second. true;
}
  where
    second_five : ℕ → Bool
    second_five n = elim n [ suc m ↦ true | _ ↦ false ]

node3_promotes_itself :
    (do_primary_failover settings (around world3) (daemon 3)).actions
    ≡ disable_wal_receiver
      ∷ enable_wal_receiver
      ∷ run_promote_command (exited 0)
      ∷ increment_current_term
      ∷ notify_follow_primary (pos 2) (pos 3)
      ∷ []
unfolding do_primary_failover settle dispatch act_on_election act_on_result disconnect reconnect
    promote_self run_promotion notify_followers do_election start_election ready_local hold_election
    conclude validated scan check_sibling
node3_promotes_itself = refl

do_primary_failover-Answered_example :
    Answered settings (around world2) (do_primary_failover settings (around world2) (daemon 2))
do_primary_failover-Answered_example =
    do_primary_failover-Answered settings (around world2) (daemon 2) ((λ e. cc e), tt)

await_receivers_first_round_example :
    await_receivers (λ second n. some (pos 900)) (node 2 ∷ []) 30 0 false
    ≡ (if some_running (λ n. some (pos 900)) (node 2 ∷ []) then (true, 30) else (false, 0))
await_receivers_first_round_example =
    await_receivers_first_round (λ second n. some (pos 900)) (node 2 ∷ []) 29
