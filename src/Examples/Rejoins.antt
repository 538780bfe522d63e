-- ===== src/Examples/Rejoins.antt =====
-- "repmgr standby follow" and "repmgr node rejoin" at concrete inputs.
use repmgr.Base.{◌≡◌, refl, pos, Bool, true, false, ◌&&◌, none, some, [], ◌∷◌, codes}
use repmgr.Nodes.{rectype_primary, rectype_standby, node_not_attached}
use repmgr.Client.Promote.Run.{success}
use repmgr.Client.Switchover.World.{pqping_no_response}
use repmgr.Client.Follow.Internal.{
  FollowAnswers, write_recovery_file, reload_server, start_server, create_replication_slot,
  drop_old_slot, update_node_status,
}
use repmgr.Client.Follow.Run.{FollowOptions, StandbyFollowWorld, do_standby_follow}
use repmgr.Client.Follow.Status.{updates, ends_well, do_standby_follow-ends_well_iff}
use repmgr.Client.Rejoin.Run.{
  RejoinOptions, RejoinWorld, db_shutdowned, archive_config, pg_rewind, restore_config,
  remove_slot_directories, follow, do_node_rejoin, err_rejoin_fail,
}
use repmgr.Client.Rejoin.Status.{tries_update, passes_for_success, do_node_rejoin-ends_well_iff}
use repmgr.Examples.Clients.{local, target}
use repmgr.Examples.Switchovers.{late_answers}

-- Node 2 leaves node 1 for node 3, with slots; the update of its record goes through or not.
abbrev leaves_node1 : Bool → Bool → FollowAnswers
leaves_node1 up updated = record {
  node_record_found = true;
  use_replication_slots = true;
  slot_name = codes "slot";
  create_slot_succeeds = true;
  upstream_node_id = pos 1;
  host_param_provided = false;
  local_connects = true;
  original_record_found = true;
  recovery_file_written = true;
  server_up = up;
  server_version_num = 130000;
  standby_follow_restart = false;
  reload_succeeds = true;
  service_restart_command = [];
  stop_succeeds = true;
  start_succeeds = true;
  restart_succeeds = true;
  old_upstream_connects = true;
  update_succeeds = updated;
}

abbrev follow_options : FollowOptions
follow_options = record {
  dry_run = false;
  force_rewind_used = false;
  upstream_node_id = some (pos 3);
  wait_provided = false;
}

-- The node never attaches to node 3.
abbrev follow_answers : Bool → StandbyFollowWorld
follow_answers updated = record {
  local_connects = true;
  recovery_type = rectype_standby;
  node_record_found = true;
  node_id = pos 2;
  requested_record_found = true;
  primary_follow_timeout = 60;
  target_connects = λ i. true;
  primary_node_id = λ i. pos 3;
  target_record_found = true;
  target_type = rectype_primary;
  slots_available = true;
  local_repl_connects = true;
  local_system = some (record local { xlogpos = 500 });
  target = target;
  primary_connects = true;
  answers = leaves_node1 true updated;
  standby_follow_timeout = 30;
  attached = λ i. node_not_attached;
}

-- The command is a success all the same.
not_attached : do_standby_follow follow_options (follow_answers true) ≡ record {
  exit_code = none;
  actions =
      create_replication_slot ∷ write_recovery_file ∷ reload_server ∷ drop_old_slot
      ∷ update_node_status ∷ [];
}
unfolding do_standby_follow
not_attached = refl

-- The failure to update the record ends the program with the code for success.
not_updated : (do_standby_follow follow_options (follow_answers false)).exit_code ≡ some success
unfolding do_standby_follow
not_updated = refl

do_standby_follow-ends_well_iff_example :
    ends_well (do_standby_follow follow_options (follow_answers false)).exit_code
    ≡ updates (do_standby_follow follow_options (follow_answers false)).actions
do_standby_follow-ends_well_iff_example =
    do_standby_follow-ends_well_iff follow_options (follow_answers false) refl

abbrev rejoin_options : RejoinOptions
rejoin_options = record { dry_run = false; force_rewind_used = true; no_wait = false }

-- The node has diverged from the primary, and answers too late after it is started.
abbrev rejoin_answers : RejoinWorld
rejoin_answers = record {
  ping = pqping_no_response;
  db_state = some db_shutdowned;
  upstream_connects = true;
  primary_record_found = true;
  primary_connects = true;
  primary_type = rectype_primary;
  primary_node_id = pos 3;
  local_record_found = true;
  slots_available = true;
  local_system = local;
  target = target;
  can_use_pg_rewind = true;
  archive_succeeds = true;
  rewind_succeeds = true;
  restore_succeeds = true;
  recovery_done_found = false;
  answers = leaves_node1 false true;
  join = late_answers;
  local_connects = true;
}

rewound : do_node_rejoin rejoin_options rejoin_answers ≡ record {
  exit_code = some err_rejoin_fail;
  actions =
      archive_config
      ∷ pg_rewind
      ∷ restore_config
      ∷ remove_slot_directories
      ∷ follow create_replication_slot
      ∷ follow write_recovery_file
      ∷ follow start_server
      ∷ follow drop_old_slot
      ∷ follow update_node_status
      ∷ [];
}
unfolding do_node_rejoin
rewound = refl

do_node_rejoin-ends_well_iff_example :
    ends_well (do_node_rejoin rejoin_options rejoin_answers).exit_code ≡ (
      tries_update (do_node_rejoin rejoin_options rejoin_answers).actions
      && passes_for_success rejoin_options rejoin_answers)
do_node_rejoin-ends_well_iff_example =
    do_node_rejoin-ends_well_iff rejoin_options rejoin_answers refl
