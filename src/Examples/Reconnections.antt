-- ===== src/Examples/Reconnections.antt =====
-- The attempts to reconnect at concrete inputs.
use repmgr.Base.{◌≡◌, refl, pos, true, false, if◌then◌else◌, ◌==◌, ◌&&◌}
use repmgr.Nodes.{node_status_unknown}
use repmgr.Failover.World.{null, value}
use repmgr.Reconnect.{Attempts, try_primary_reconnect}

-- The server never answers, and a new primary is named in second 3 after attempt 1.
abbrev pub attempts : Attempts
attempts = record {
  server_available = λ i. false;
  connection_ok = λ i. true;
  original_bad = λ i. true;
  ping_ok = λ i. false;
  notification = λ i j. if (i == 1) && (j == 3) then value (pos 7) else null;
}

notified_runs : try_primary_reconnect attempts 10 node_status_unknown 6 ≡ record {
  node_status = node_status_unknown;
  uses_new_connection = false;
  new_primary_node_id = pos 7;
  seconds_slept = 13;
}
unfolding try_primary_reconnect
notified_runs = refl

-- As above, but no node is told of a new primary.
abbrev untold : Attempts
untold = record attempts { notification = λ i j. null }
