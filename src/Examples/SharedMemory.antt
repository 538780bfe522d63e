-- ===== src/Examples/SharedMemory.antt =====
-- Calls on the shared memory of the extension.
use repmgr.Base.{
  ◌≡◌, ◌≢◌, refl, pos, negsuc, true, false, none, some, List, [], ◌∷◌, codes, arith, read_digits,
}
use repmgr.SharedState.StateFile.{
  scan_state_file, scan_int, scan_signed, scan_magnitude, scan_after_zero, scan_hex, read_base,
  skip_spaces, fgets,
}
use repmgr.SharedState.{
  SharedState, int32, postgres_epoch_jdate, vs_no_vote, boolean, repmgr_shmem_startup,
  set_local_node_id, get_local_node_id, get_new_primary, repmgrd_pause, repmgrd_is_paused,
}
use repmgr.SharedState.Calls.{
  Call, call_set_local_node_id, call_notify_follow_primary, call_reset_voting_status, perform_all,
  perform,
}
use repmgr.SharedState.History.{shared_state_refines_Mailbox}
use repmgr.SharedState.Pause.{pause_survives_restart}

abbrev script : List Call
script =
    call_notify_follow_primary (some (pos 9))
    ∷ call_set_local_node_id (some (pos 2)) none
    ∷ call_notify_follow_primary (some (pos 3))
    ∷ call_reset_voting_status
    ∷ call_notify_follow_primary (some (pos 4))
    ∷ call_set_local_node_id (some (pos 7)) none
    ∷ []

script_runs : get_new_primary (perform_all script (some repmgr_shmem_startup)) ≡ int32 (pos 4)
unfolding get_new_primary perform_all perform repmgr_shmem_startup
script_runs = refl

shared_state_refines_Mailbox_example :
    let s = perform_all script (some repmgr_shmem_startup) in
    (get_local_node_id s ≡ int32 (pos 2)) × (get_new_primary s ≡ int32 (pos 4))
shared_state_refines_Mailbox_example = shared_state_refines_Mailbox script

abbrev node_two : SharedState
node_two = record {
  last_updated = 0;
  local_node_id = pos 2;
  repmgrd_pid = negsuc 0;
  repmgrd_pidfile = [];
  repmgrd_paused = false;
  upstream_node_id = pos 1;
  upstream_last_seen = postgres_epoch_jdate;
  voting_status = vs_no_vote;
  current_electoral_term = 0;
  candidate_node_id = negsuc 0;
  follow_new_primary = false;
}

pos_two_known : pos 2 ≢ negsuc 0
pos_two_known e = cc e

state_file_reads :
    (scan_state_file (some (codes " 2:1")) ≡ (pos 2, pos 1))
    × (scan_state_file (some (codes "0x1F:010")) ≡ (pos 31, pos 8))
    × (scan_state_file (some (codes "2")) ≡ (pos 2, negsuc 0))
unfolding scan_state_file scan_int scan_signed scan_magnitude scan_after_zero scan_hex read_base
    skip_spaces fgets read_digits
state_file_reads = (refl, refl, refl)

pause_survives_restart_example :
    let file = (repmgrd_pause (some true) (some node_two)).2 in
    let restarted = (set_local_node_id (some (pos 2)) file (some repmgr_shmem_startup)).0 in
    (get_local_node_id restarted ≡ int32 (pos 2)) × (repmgrd_is_paused restarted ≡ boolean true)
pause_survives_restart_example =
    pause_survives_restart 2 true node_two (omega arith) (omega arith) refl
