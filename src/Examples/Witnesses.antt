-- ===== src/Examples/Witnesses.antt =====
-- Rounds of the monitoring loop of a witness.
use repmgr.Base.{◌≡◌, refl, pos, Bool, true, false, Option, none, some, List, [], ◌∷◌}
use repmgr.Nodes.{node_status_down, ms_degraded, rectype_primary}
use repmgr.Election.Siblings.{Daemon}
use repmgr.Failover.World.{is_primary}
use repmgr.Failover.Witness.{set_upstream, copy_node_records}
use repmgr.Monitor.Witness.{
  WitnessWorld, WitnessEffect, set_upstream_last_seen, witness_act, WitnessNext, stays, leaves,
  with_upstream_status, witness_round,
}
use repmgr.Monitor.WitnessRun.{
  WitnessStart, monitor_streaming_witness, AttendsAll, monitor_streaming_witness-Attends,
}
use repmgr.Examples.Elections.{node, daemon, world2}
use repmgr.Examples.Failovers.{around}
use repmgr.Examples.Reconnections.{attempts}
use repmgr.Examples.Monitoring.{monitor_settings, probe}

-- The primary answers or not; node 3 is a new primary.
abbrev witness_world : Bool → WitnessWorld
witness_world up = record {
  probe = probe up;
  attempts = attempts;
  reconnected_type = rectype_primary;
  around = around world2;
  degraded_probe = probe up;
  upstream_connected = true;
  degraded_type = rectype_primary;
  siblings = node 3 ∷ [];
  sibling_peer = λ n. is_primary;
  local_connected = true;
  primary_connected = true;
  set_active_succeeds = true;
  stored_local_node_id = pos 2;
  sync_due = true;
  sync_type = rectype_primary;
}

abbrev degraded : Daemon
degraded = record (with_upstream_status (daemon 2) node_status_down) {
  monitoring_state = ms_degraded;
}

abbrev effects_of : WitnessNext → Option (List WitnessEffect)
effects_of (stays d effects) = some effects
effects_of (leaves d effects) = none

seen_and_copied :
    effects_of (witness_round monitor_settings (witness_world true) degraded)
    ≡ some (set_upstream_last_seen (pos 1) ∷ witness_act copy_node_records ∷ [])
unfolding witness_round
seen_and_copied = refl

-- The new primary is found and followed, but monitoring is still degraded after this round.
followed :
    effects_of (witness_round monitor_settings (witness_world false) degraded)
    ≡ some (
        witness_act (set_upstream (pos 2) (pos 3))
        ∷ witness_act copy_node_records
        ∷ witness_act copy_node_records
        ∷ [])
unfolding witness_round
followed = refl

-- No primary is found at the start; node 1 is the last known one.
abbrev no_primary : WitnessStart
no_primary = record {
  primary_connects = false;
  primary_record = none;
  last_known_record = some (node 1);
}

monitor_streaming_witness-Attends_example : AttendsAll (
    monitor_streaming_witness monitor_settings no_primary
      (witness_world false ∷ witness_world true ∷ witness_world false ∷ [])
      (daemon 2))
monitor_streaming_witness-Attends_example =
    monitor_streaming_witness-Attends monitor_settings no_primary
      (witness_world false ∷ witness_world true ∷ witness_world false ∷ []) (daemon 2)
