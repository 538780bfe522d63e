-- ===== src/Examples/Monitoring.antt =====
-- Rounds of the monitoring loop of a standby in the small cluster of Examples/Elections.antt.
use repmgr.Base.{◌≡◌, refl, pos, Bool, true, false, none, [], ◌∷◌}
use repmgr.Nodes.{ServerType, node_status_up, ms_normal}
use repmgr.Failover.World.{failover_none, unreachable}
use repmgr.Election.Siblings.{scan, check_sibling}
use repmgr.Election.Decide.{
  do_election, start_election, ready_local, hold_election, conclude, validated,
}
use repmgr.Failover.Steps.{promote_self, run_promotion, notify_followers}
use repmgr.Failover.Primary.{
  act_on_election, act_on_result, dispatch, settle, disconnect, reconnect, do_primary_failover,
}
use repmgr.Reconnect.{try_primary_reconnect}
use repmgr.Monitor.Upstream.{Probe, check_connection}
use repmgr.Monitor.State.{
  terminated, Monitor, MonitorSettings, RoundWorld, Next, set_upstream_last_seen, go_on,
  with_status,
}
use repmgr.Monitor.Round.{monitor_round}
use repmgr.Monitor.Paused.{CalmNext, monitor_round-paused}
use repmgr.Monitor.Watchful.{Watches, monitor_round-Watches}
use repmgr.Examples.Elections.{node, daemon, world3}
use repmgr.Examples.Failovers.{settings, around}
use repmgr.Examples.Reconnections.{attempts}
use repmgr.Examples.Followers.{cascade_fails}

abbrev pub monitor_settings : MonitorSettings
monitor_settings = record {
  failover = settings;
  connection_check_type = check_connection;
  reconnect_attempts = 1;
  reconnect_interval = 10;
  degraded_monitoring_timeout = pos 0;
}

-- The server answers everything, or nothing.
abbrev pub probe : Bool → Probe
probe up = record {
  server_available = up;
  test_connection_ok = up;
  connection_ok = up;
  reset_ok = up;
  query_ok = up;
  query_after_reset_ok = up;
}

-- A standby that watches its upstream.
abbrev watching : Monitor
watching =
    let upstream = record (node 1) { type = ServerType.primary } in
    let m : Monitor = record {
      daemon = record (daemon 3) { upstream_node_info = upstream };
      failover_state = failover_none;
      primary_node_id = pos 1;
      local_monitoring_state = ms_normal;
      last_known_upstream_node_id = pos 1;
    } in
    with_status m node_status_up

-- The upstream answers or not; the local node does.
abbrev round : Bool → RoundWorld
round up = record {
  probe = probe up;
  local_connected = true;
  attempts = attempts;
  upstream_in_recovery = false;
  paused = false;
  cascade = record cascade_fails { around = around world3 };
  primary_node_id = pos 3;
  degraded_elapsed = pos 0;
  degraded_probe = probe up;
  upstream_connected = up;
  local_promoted = false;
  promoted_record = none;
  former_siblings = [];
  refreshed_record = none;
  siblings = node 2 ∷ [];
  sibling_peer = λ n. unreachable;
  local_reconnected = true;
  recovered_record = none;
  stored_local_node_id = pos 3;
  primary_connected = false;
  primary_in_recovery = false;
  set_active_succeeds = true;
  final_record = none;
  upstream_id_on_primary = pos 1;
}

upstream_seen :
    monitor_round monitor_settings (round true) watching
    ≡ go_on watching (set_upstream_last_seen (pos 1) ∷ [])
unfolding monitor_round
upstream_seen = refl

monitor_round-Watches_example : Watches (monitor_round monitor_settings (round false) watching)
monitor_round-Watches_example =
    monitor_round-Watches monitor_settings (round false) ((λ e. cc e), tt) watching refl refl

-- The local node is lost while it is to promote itself.
abbrev lost_local_node : RoundWorld
lost_local_node =
    let alone = record (around world3) { local_connection = false; local_reconnects = false } in
    let w = round false in record w { cascade = record cascade_fails { around = alone } }

abbrev has_terminated : Next → Bool
has_terminated (terminated effects) = true
has_terminated _ = false

-- The program ends.
failover_without_local_node :
    has_terminated (monitor_round monitor_settings lost_local_node watching) ≡ true
unfolding monitor_round try_primary_reconnect do_primary_failover settle dispatch act_on_election
    act_on_result disconnect reconnect promote_self run_promotion notify_followers do_election
    start_election ready_local hold_election conclude validated scan check_sibling
failover_without_local_node = refl

-- The upstream is lost while repmgrd is paused.
abbrev on_hold : RoundWorld
on_hold = record (round false) { paused = true }

monitor_round-paused_example : CalmNext (monitor_round monitor_settings on_hold watching)
unfolding try_primary_reconnect
monitor_round-paused_example = monitor_round-paused monitor_settings on_hold refl refl watching refl
