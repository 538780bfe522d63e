-- ===== src/Examples/Primaries.antt =====
-- Rounds of the monitoring loop of a primary.
use repmgr.Base.{◌≡◌, refl, pos, Bool, true, false, [], ◌∷◌}
use repmgr.Nodes.{ServerType, node_status_up, ms_normal, rectype_primary, rectype_standby}
use repmgr.Monitor.Primary.{
  PrimaryMonitor, StatusWorld, record_found, PrimaryWorld, PrimaryNext, stays, check_child_nodes,
  with_local_status, primary_round,
}
use repmgr.Monitor.Guarded.{guarded, Guards, primary_round-Guards}
use repmgr.Examples.Elections.{node}
use repmgr.Examples.Reconnections.{attempts}
use repmgr.Examples.Monitoring.{monitor_settings}

-- The node is still the primary.
abbrev still_primary : StatusWorld
still_primary = record {
  recovery_type = rectype_primary;
  new_primary_connects = false;
  new_primary_node_id = pos 1;
  record_on_primary = record_found (node 1);
  set_succeeds = true;
  record_again = record_found (node 1);
}

-- The node is a standby of node 2, which has it on record as a primary, and whose record cannot be
-- changed.
abbrev unchanged : StatusWorld
unchanged = record {
  recovery_type = rectype_standby;
  new_primary_connects = true;
  new_primary_node_id = pos 2;
  record_on_primary = record_found (record (node 1) { type = ServerType.primary });
  set_succeeds = false;
  record_again = record_found (node 1);
}

abbrev serving : PrimaryMonitor
serving =
    let m : PrimaryMonitor = record {
      local_node_info = record (node 1) { type = ServerType.primary };
      monitoring_state = ms_normal;
      primary_node_id = pos 1;
    } in
    with_local_status m node_status_up

abbrev primary_world : StatusWorld → PrimaryWorld
primary_world check = record {
  local_connected = true;
  attempts = attempts;
  stored_local_node_id = pos 1;
  after_reconnect = still_primary;
  degraded_elapsed = pos 0;
  server_available = true;
  connects = true;
  after_degraded = still_primary;
  child_nodes_due = true;
  at_end = check;
}

child_nodes_checked :
    primary_round monitor_settings (primary_world still_primary) serving
    ≡ stays serving (check_child_nodes ∷ [])
unfolding primary_round
child_nodes_checked = refl

primary_round-Guards_example :
    Guards (primary_round monitor_settings (primary_world still_primary) serving)
primary_round-Guards_example =
    primary_round-Guards monitor_settings (primary_world still_primary) refl serving refl

abbrev still_guarded : PrimaryNext → Bool
still_guarded (stays m effects) = guarded m
still_guarded _ = true

-- The loop goes on, but the loss of the node would not be noticed any more.
unchanged_leaves_unguarded :
    still_guarded (primary_round monitor_settings (primary_world unchanged) serving) ≡ false
unfolding primary_round
unchanged_leaves_unguarded = refl
