-- ===== src/Examples/Followers.antt =====
-- The failovers of a witness and of a standby below another standby, in the small cluster of
-- Examples/Elections.antt.
use repmgr.Base.{◌≡◌, refl, pos, true, some, [], ◌∷◌}
use repmgr.Failover.World.{is_primary}
use repmgr.Failover.Steps.{
  wait_primary_notification, notified_on, await_notification, get_new_primary, await_local,
}
use repmgr.Failover.Witness.{set_upstream, copy_node_records, do_witness_failover}
use repmgr.Failover.Cascade.{CascadeWorld, do_upstream_standby_failover}
use repmgr.Examples.Elections.{node, daemon, world2}
use repmgr.Examples.Failovers.{settings, around}

-- In second 1 the witness is told to follow node 3.
witness_follows_node3 :
    (do_witness_failover settings (around world2) (daemon 2)).actions
    ≡ set_upstream (pos 2) (pos 3) ∷ copy_node_records ∷ []
unfolding do_witness_failover wait_primary_notification notified_on await_notification
    get_new_primary
witness_follows_node3 = refl

-- The follow command fails, but the standby itself is running.
abbrev pub cascade_fails : CascadeWorld
cascade_fails = record {
  around = record (around world2) { follow_exit = λ c. pos 1 };
  primary_record = some (node 3);
  primary_peer = is_primary;
  set_upstream_succeeds = true;
}

failed_follow_returns_true :
    (do_upstream_standby_failover settings cascade_fails (daemon 2)).returned ≡ some true
unfolding do_upstream_standby_failover await_local
failed_follow_returns_true = refl
