-- ===== src/Client/Switchover/Checks.antt =====
-- The checks of the two nodes before a switchover, none of which a dry run leaves out.
use repmgr.Base.{
  ℕ, negsuc, pos, leb_ℤ, ◌==ℤ◌, Bool, true, false, not, ◌&&◌, ◌||◌, Option, none, some, List, [],
  ◌∷◌, ltb, ◌==◌, if◌then◌else◌,
}
use repmgr.Nodes.{ServerType, primary, standby, RecoveryType, rectype_standby}
use repmgr.Client.Join.{is_attached}
use repmgr.Client.Promote.Run.{err_bad_config, err_db_conn, err_db_query}
use repmgr.Client.Switchover.World.{
  SwitchoverOptions, SwitchoverWorld, err_switchover_fail, CheckStatus, check_status_ok,
  check_status_warning, check_status_critical, check_status_unknown, ConnectionStatus, conn_ok,
  RemoteError, remote_error_db_connection,
}

-- A failed test ends the program with an exit code; otherwise the tests go on.
abbrev pub require : Bool → ℕ → Option ℕ → Option ℕ
require passed code next = if passed then next else some code

abbrev pub is_standby_type : RecoveryType → Bool
is_standby_type rectype_standby = true
is_standby_type _ = false

abbrev pub is_streaming_replication : ServerType → Bool
is_streaming_replication primary = true
is_streaming_replication standby = true
is_streaming_replication _ = false

-- The output of a test of the shell is not "0".
abbrev pub answers_yes : Option (List ℕ) → Bool
answers_yes none = false
answers_yes (some []) = true
answers_yes (some (char ∷ rest)) = not (char == 48)

abbrev pub passes : Option Bool → Bool
passes none = false
passes (some passed) = passed

abbrev pub is_some {ℓ} : {A : Type ℓ} → Option A → Bool
is_some none = false
is_some (some a) = true

abbrev pub at_least : ℕ → Option (Option ℕ) → Bool
at_least version (some (some found)) = not (ltb found version)
at_least version _ = false

abbrev pub knows_version : Option (Option ℕ) → Bool
knows_version (some (some found)) = true
knows_version _ = false

abbrev pub is_ok : Option CheckStatus → Bool
is_ok (some check_status_ok) = true
is_ok _ = false

-- The local node, up to the connection to the primary.
unfoldable pub check_local_node : SwitchoverOptions → SwitchoverWorld → Option ℕ → Option ℕ
check_local_node o w next = require w.node_record_found err_db_query (
    require (is_streaming_replication w.type) err_bad_config (
      require (not o.superuser || w.superuser_connects) err_bad_config (
        require (not o.superuser || w.superuser_has_rights) err_bad_config (
          require (is_standby_type w.local.recovery_type) err_switchover_fail (
            require w.replication_config_owner_ok err_bad_config
              (require w.primary_connects err_db_conn next))))))

-- The primary, over its database connection.
unfoldable pub check_remote_node : SwitchoverOptions → SwitchoverWorld → Option ℕ → Option ℕ
check_remote_node o w next = require w.remote_record_found err_db_query (
    require (w.upstream_node_id ==ℤ w.remote_node_id) err_bad_config (
      require (is_attached w.local_attached) err_bad_config (
        require (not (ltb w.local.server_version_num 130000 && w.wal_replay_paused))
          err_switchover_fail
          (require w.no_exclusive_backup err_switchover_fail
            (require (not o.force_rewind_used || w.can_use_pg_rewind) err_bad_config next)))))

-- The connection to the host of the primary, and the program there.
unfoldable pub check_remote_host : SwitchoverWorld → Option ℕ → Option ℕ
check_remote_host w next = require (w.ssh_result ==ℤ pos 0) err_bad_config (
    require (answers_yes w.repmgr_binary) err_bad_config
      (require (knows_version w.remote_repmgr_version) err_bad_config next))

-- The configuration of the primary.
unfoldable pub check_remote_configuration : SwitchoverWorld → Option ℕ → Option ℕ
check_remote_configuration w next =
    require (answers_yes w.config_file_exists) err_bad_config
      (require (passes w.data_directory_config) err_bad_config next)

-- The superuser on the primary, and the owner of its files.
unfoldable pub check_remote_users : SwitchoverOptions → SwitchoverWorld → Option ℕ → Option ℕ
check_remote_users o w next =
    require (not o.superuser || is_some w.remote_superuser) err_bad_config (
      require (not o.superuser || is_ok w.remote_superuser) err_db_conn (
        require
          (ltb w.local.server_version_num 120000
            || not (at_least 50100 w.remote_repmgr_version)
            || passes w.remote_config_owner)
          err_bad_config next))

unfoldable pub check_nodes : SwitchoverOptions → SwitchoverWorld → Option ℕ → Option ℕ
unfolding check_local_node check_remote_node check_remote_host check_remote_configuration
    check_remote_users
check_nodes o w next = check_local_node o w (
    check_remote_node o w
      (check_remote_host w (check_remote_configuration w (check_remote_users o w next))))

-- A command that fails tells nothing against the connection.
abbrev pub connection_works : Option ConnectionStatus → Bool
connection_works none = true
connection_works (some conn_ok) = true
connection_works (some _) = false

-- The archiver of the primary, from the status on.
unfoldable pub check_archive : Bool → CheckStatus → RemoteError → Bool
check_archive force check_status_ok error = true
check_archive force check_status_warning error = true
check_archive force check_status_critical error = force
check_archive force check_status_unknown remote_error_db_connection = false
check_archive force check_status_unknown error = force

-- The lag of the local node; -1 is `UNKNOWN_REPLICATION_LAG`.
unfoldable pub check_lag : Bool → SwitchoverWorld → Bool
check_lag force w =
    if leb_ℤ w.replication_lag_critical w.lag_seconds
    then force
    else if leb_ℤ w.replication_lag_warning w.lag_seconds
    then true
    else if w.lag_seconds ==ℤ negsuc 0
    then force
    else true

-- What is checked between the WAL senders and the slots; without an answer the archiver is unknown.
unfoldable pub check_replication : Bool → SwitchoverWorld → Option ℕ → Option ℕ
unfolding check_archive check_lag
check_replication force w next =
    let archive : Bool = elim w.archive_check [
      | none ↦ check_archive force check_status_unknown RemoteError.remote_error_none
      | some (status, error) ↦ check_archive force status error
    ] in
    require (connection_works w.replication_connection) err_bad_config (
      require (not w.archive_mode_on || archive) err_switchover_fail
        (require (check_lag force w) err_switchover_fail next))
