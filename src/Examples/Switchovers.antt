-- ===== src/Examples/Switchovers.antt =====
-- A switchover and the wait for a node to attach at concrete inputs.
use repmgr.Base.{
  ◌≡◌, ◌↔◌, refl, ℕ, zero, suc, ℤ, pos, Bool, true, false, ◌||◌, none, some, [], ◌∷◌, codes,
  if◌then◌else◌,
}
use repmgr.Nodes.{
  standby, RecoveryType, rectype_primary, rectype_standby, node_status_down, node_attached, Lsn,
}
use repmgr.Client.Join.{JoinWorld, check_standby_join, joined}
use repmgr.Client.Join.Attached.{Joins, check_standby_join-success_iff}
use repmgr.Client.Promote.Siblings.{standby_follow}
use repmgr.Client.Promote.Run.{PromoteWorld, pg_promote, update_node_record}
use repmgr.Client.Promote.Checks.{is_none, is_success}
use repmgr.Client.Switchover.World.{
  SwitchoverOptions, SwitchoverWorld, check_status_ok, conn_ok, RemoteError, pqping_no_response,
  RepmgrdAnswer, repmgrd_pause, stop_primary, promotion, node_rejoin, switchover_notification,
  sibling, drop_replication_slot,
}
use repmgr.Client.Switchover.Run.{promotes_over, do_standby_switchover}
use repmgr.Client.Switchover.Reached.{reaches, ReadyToPromote, do_standby_switchover-ReadyToPromote}
use repmgr.Client.Rejoin.Run.{db_shutdowned}
use repmgr.Client.Switchover.ControlFile.{ServerState, node_status_output, parse_node_status}
use repmgr.Client.Switchover.CleanStop.{CleanlyStopped, do_standby_switchover-CleanlyStopped}
use repmgr.Client.Switchover.Recorded.{IsRecorded, do_standby_switchover-IsRecorded}
use repmgr.Client.Switchover.Restored.{restored, do_standby_switchover-Restores}
use repmgr.Client.Switchover.Pauses.{paused_after}
use repmgr.Client.Switchover.Order.{rank, Ascending, do_standby_switchover-Ascending}
use repmgr.Client.Switchover.Rehearsal.{unforced, do_standby_switchover-dry_run_iff}
use repmgr.Client.Switchover.Completed.{Reconnects, do_standby_switchover-completes_iff}

-- Node 3 is a standby of the old primary, node 1; node 2 is promoted after one second.
abbrev local_node : PromoteWorld
local_node = record {
  recovery_type = rectype_standby;
  node_record_found = true;
  server_version_num = 120000;
  receiving_streamed_wal = some true;
  wal_replay_paused = λ pending. false;
  active_primary = false;
  available_wal_senders = pos 4;
  available_slots = pos 4;
  sibling_nodes =
      record { node_id = pos 3; type = standby; slot_name = codes "slot"; reachable = false } ∷ [];
  ssh_ok = λ node. true;
  witness_connects = λ node. true;
  node_record_found_again = true;
  service_promote_command = [];
  can_execute_pg_promote = true;
  pg_promote_executed = true;
  promote_command_status = pos 0;
  promote_check_timeout = 60;
  promote_check_interval = 1;
  recovery_at = λ second. primary_later second;
  record_updated = true;
}
  where
    primary_later : ℕ → RecoveryType
    primary_later zero = rectype_standby
    primary_later second = rectype_primary

abbrev pub join_answers : JoinWorld
join_answers = record {
  server_available = λ i. true;
  downstream_attached = λ i. node_attached;
  standby_reconnect_timeout = 60;
  node_rejoin_timeout = 60;
}

-- The instance of repmgrd on node 3 is paused before the switchover; the local node has received
-- the last checkpoint of the primary, at `checkpoint_lsn`, up to 900.
abbrev answers : Lsn → SwitchoverWorld
answers checkpoint_lsn = record {
  node_record_found = true;
  type = standby;
  superuser_connects = false;
  superuser_has_rights = false;
  local = local_node;
  as_superuser = local_node;
  replication_config_owner_ok = true;
  primary_connects = true;
  remote_record_found = true;
  upstream_node_id = pos 1;
  remote_node_id = pos 1;
  remote_slot_name = codes "slot";
  local_attached = node_attached;
  wal_replay_paused = false;
  no_exclusive_backup = true;
  can_use_pg_rewind = true;
  ssh_result = pos 0;
  repmgr_binary = some (codes "1");
  remote_repmgr_version = some (some 50300);
  config_file_exists = some (codes "1");
  data_directory_config = some true;
  remote_superuser = none;
  remote_config_owner = some true;
  replication_connection = some conn_ok;
  archive_mode_on = true;
  archive_check = some (check_status_ok, RemoteError.remote_error_none);
  lag_seconds = pos 0;
  replication_lag_critical = pos 600;
  replication_lag_warning = pos 300;
  all_nodes =
      record { node_id = pos 1; active = true }
      ∷ record { node_id = pos 2; active = true }
      ∷ record { node_id = pos 3; active = true }
      ∷ [];
  repmgrd = λ id. instance_of id;
  shutdown_check_timeout = 60;
  ping = λ i. pqping_no_response;
  shutdown_status = λ i. some (node_status_down, some checkpoint_lsn);
  local_connection_ok = true;
  local_reconnects = true;
  wal_receive_check_timeout = 30;
  receive_lsn = λ i. some 900;
  local_is_superuser = true;
  rejoin_succeeds = true;
  join = join_answers;
  standby_reconnect_timeout = 60;
  remote_connects = λ i. true;
  use_replication_slots = true;
  remote_attached = node_attached;
  reconnects = λ id. true;
}
  where
    instance_of : ℤ → RepmgrdAnswer
    instance_of (pos (suc (suc (suc zero)))) = record {
      connects = true;
      is_running = true;
      is_paused = true;
    }
    instance_of id = record { connects = true; is_running = true; is_paused = false }

abbrev plain : SwitchoverOptions
plain = record {
  options = record { dry_run = false; force = false; siblings_follow = true };
  always_promote = false;
  force_rewind_used = false;
  superuser = false;
  repmgrd_no_pause = false;
  repmgrd_force_unpause = false;
}

switched :
    (do_standby_switchover plain (answers 900)).actions
    ≡ repmgrd_pause (pos 1) true
      ∷ repmgrd_pause (pos 2) true
      ∷ stop_primary
      ∷ promotion pg_promote
      ∷ promotion update_node_record
      ∷ node_rejoin false
      ∷ switchover_notification true
      ∷ sibling (standby_follow (pos 3))
      ∷ drop_replication_slot
      ∷ repmgrd_pause (pos 1) false
      ∷ repmgrd_pause (pos 2) false
      ∷ []
unfolding do_standby_switchover
switched = refl

-- The local node is behind: the primary is stopped, repmgrd is paused, and that is how it stays.
left_paused :
    (do_standby_switchover plain (answers 901)).actions
    ≡ repmgrd_pause (pos 1) true ∷ repmgrd_pause (pos 2) true ∷ stop_primary ∷ []
unfolding do_standby_switchover
left_paused = refl

-- The node answers only after "node_rejoin_timeout", and is attached all the time.
abbrev pub late_answers : JoinWorld
late_answers = record {
  server_available = λ i. late i;
  downstream_attached = λ i. node_attached;
  standby_reconnect_timeout = 3;
  node_rejoin_timeout = 2;
}
  where
    late : ℕ → Bool
    late (suc (suc zero)) = true
    late i = false

too_late : joined (check_standby_join late_answers) ≡ false
unfolding check_standby_join
too_late = refl

check_standby_join-success_iff_example :
    (joined (check_standby_join join_answers) ≡ true) ↔ Joins join_answers 0
check_standby_join-success_iff_example = check_standby_join-success_iff join_answers

do_standby_switchover-Ascending_example :
    Ascending 0 (do_standby_switchover plain (answers 900)).actions
do_standby_switchover-Ascending_example = do_standby_switchover-Ascending plain (answers 900)

do_standby_switchover-ReadyToPromote_example : ReadyToPromote plain (answers 900)
unfolding do_standby_switchover rank
do_standby_switchover-ReadyToPromote_example =
    do_standby_switchover-ReadyToPromote plain (answers 900) refl

do_standby_switchover-IsRecorded_example : IsRecorded (promotes_over plain (answers 900))
unfolding do_standby_switchover rank
do_standby_switchover-IsRecorded_example = do_standby_switchover-IsRecorded plain (answers 900) refl

do_standby_switchover-Restores_example :
    paused_after (pos 2) false (do_standby_switchover plain (answers 900)).actions ≡ (
      if reaches 4 (do_standby_switchover plain (answers 900)).actions
      then restored plain (answers 900) (pos 2)
      else reaches 1 (do_standby_switchover plain (answers 900)).actions || false)
do_standby_switchover-Restores_example =
    do_standby_switchover-Restores plain (answers 900) (pos 2) refl

do_standby_switchover-dry_run_iff_example :
    is_success (do_standby_switchover (unforced plain true) (answers 900)).exit_code
    ≡ reaches 1 (do_standby_switchover (unforced plain false) (answers 900)).actions
do_standby_switchover-dry_run_iff_example = do_standby_switchover-dry_run_iff plain (answers 900)

do_standby_switchover-completes_iff_example :
    (is_none (do_standby_switchover plain (answers 900)).exit_code ≡ true) ↔ (
      (reaches 4 (do_standby_switchover plain (answers 900)).actions ≡ true)
      × Reconnects (answers 900)
      × (true ≡ true))
do_standby_switchover-completes_iff_example =
    do_standby_switchover-completes_iff plain (answers 900)

abbrev stopped_server : ServerState
stopped_server = record {
  is_pg_dir = true;
  ping = pqping_no_response;
  db_state = some db_shutdowned;
  latest_checkpoint = 900;
}

do_standby_switchover-CleanlyStopped_example :
    CleanlyStopped plain (answers 900) (λ i. stopped_server)
unfolding do_standby_switchover rank node_status_output parse_node_status
do_standby_switchover-CleanlyStopped_example =
    do_standby_switchover-CleanlyStopped plain (answers 900) (λ i. stopped_server) (λ i. refl) refl
      refl
