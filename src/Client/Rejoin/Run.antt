-- ===== src/Client/Rejoin/Run.antt =====
-- `do_node_rejoin`.
use repmgr.Base.{
  ℕ, ℤ, Bool, true, false, not, ◌&&◌, ◌||◌, Option, none, some, List, [], ◌∷◌, ◌++◌, map,
  if◌then◌else◌,
}
use repmgr.Nodes.{RecoveryType}
use repmgr.Election.Follow.{FollowWorld}
use repmgr.Client.Attach.{LocalSystem, check_node_can_attach}
use repmgr.Client.Join.{JoinWorld, check_standby_join, joined}
use repmgr.Client.Promote.Run.{success, err_bad_config, err_db_conn}
use repmgr.Client.Switchover.World.{PgPing, pqping_ok, pqping_reject, pqping_no_attempt}
use repmgr.Client.Switchover.Checks.{require}
use repmgr.Client.Follow.Internal.{
  FollowAnswers, FollowAction, FollowOutcome, followed, failed, aborted, Following,
  do_standby_follow_internal,
}
use repmgr.Client.Follow.Run.{is_primary}

abbrev pub err_rejoin_fail : ℕ
err_rejoin_fail = 24

-- The states in the control file of PostgreSQL, as far as they are told apart.
pub data DbState : Type 0 where
  db_shutdowned db_shutdowned_in_recovery db_shutdowning db_other : DbState

pub record RejoinOptions : Type 0 where
  pub dry_run : Bool
  pub force_rewind_used : Bool
  pub no_wait : Bool

pub record RejoinWorld : Type 0 where
  pub ping : PgPing
  pub db_state : Option DbState
  pub upstream_connects : Bool
  pub primary_record_found : Bool
  pub primary_connects : Bool
  pub primary_type : RecoveryType
  pub primary_node_id : ℤ
  pub local_record_found : Bool
  pub slots_available : Bool
  pub local_system : LocalSystem
  pub target : FollowWorld
  pub can_use_pg_rewind : Bool
  pub archive_succeeds : Bool
  pub rewind_succeeds : Bool
  pub restore_succeeds : Bool
  pub recovery_done_found : Bool
  pub answers : FollowAnswers
  pub join : JoinWorld
  pub local_connects : Bool

pub data RejoinAction : Type 0 where
  archive_config pg_rewind restore_config remove_recovery_done : RejoinAction
  remove_slot_directories drop_replication_slot : RejoinAction
  follow : FollowAction → RejoinAction

-- The exit code, `none` when the function returns, and the actions.
pub record Rejoining : Type 0 where
  pub exit_code : Option ℕ
  pub actions : List RejoinAction

abbrev pub stops : ℕ → Rejoining
stops code = record { exit_code = some code; actions = [] }

abbrev pub first : List RejoinAction → Rejoining → Rejoining
first before run = record { exit_code = run.exit_code; actions = before ++ run.actions }

abbrev pub rejoin_unless : Option ℕ → Rejoining → Rejoining
rejoin_unless none run = run
rejoin_unless (some code) run = stops code

abbrev pub seems_shut_down : PgPing → Bool
seems_shut_down pqping_ok = false
seems_shut_down pqping_reject = false
seems_shut_down _ = true

-- A shutdown that is not complete yet is not held against the node.
abbrev pub is_clean : Option DbState → Bool
is_clean none = false
is_clean (some db_other) = false
is_clean (some state) = true

abbrev pub is_readable : Option DbState → Bool
is_readable none = false
is_readable (some state) = true

-- The local server, which is not to be running.
unfoldable pub check_stopped : RejoinWorld → Option ℕ → Option ℕ
check_stopped w next =
    let by_state = require (is_readable w.db_state) err_bad_config (
      require (seems_shut_down w.ping) err_rejoin_fail
        (require (is_clean w.db_state) err_rejoin_fail next)) in
    elim w.ping [ pqping_no_attempt ↦ some err_bad_config | _ ↦ by_state ]

-- The primary, and that the node can attach to it.
unfoldable pub check_primary : RejoinOptions → RejoinWorld → Option ℕ
unfolding check_node_can_attach
check_primary o w = require w.upstream_connects err_db_conn (
    require w.primary_record_found err_bad_config (
      require w.primary_connects err_bad_config (
        require (is_primary w.primary_type) err_bad_config (
          require w.local_record_found err_bad_config (
            require (not w.answers.use_replication_slots || w.slots_available) err_bad_config (
              require (check_node_can_attach w.target w.local_system true o.force_rewind_used)
                err_rejoin_fail none))))))

-- After a rejoin without pg_rewind, the slot of the new upstream on this node is dropped.
unfoldable pub drop_slot : RejoinOptions → RejoinWorld → List RejoinAction
drop_slot o w =
    if not o.force_rewind_used && w.answers.use_replication_slots && w.local_connects
    then drop_replication_slot ∷ []
    else []

-- From the result of `do_standby_follow_internal` on.
unfoldable pub confirm_rejoin : RejoinOptions → RejoinWorld → FollowOutcome → Rejoining
unfolding drop_slot check_standby_join
confirm_rejoin o w (failed none) = stops success
confirm_rejoin o w (failed (some code)) = stops code
confirm_rejoin o w (aborted code) = stops code
confirm_rejoin o w followed =
    if not o.no_wait && not (joined (check_standby_join w.join))
    then stops err_rejoin_fail
    else record { exit_code = none; actions = drop_slot o w }

-- From the end of pg_rewind on.
unfoldable pub rejoin_primary : RejoinOptions → RejoinWorld → Rejoining
unfolding do_standby_follow_internal confirm_rejoin
rejoin_primary o w =
    let run : Following = do_standby_follow_internal w.answers w.primary_node_id err_rejoin_fail in
    if o.dry_run
    then stops success
    else first (map follow run.actions) (confirm_rejoin o w run.outcome)

-- What pg_rewind has left in the data directory is removed.
unfoldable pub clean_directory : RejoinOptions → RejoinWorld → Rejoining
unfolding rejoin_primary
clean_directory o w =
    let cleaned = first (remove_slot_directories ∷ []) (rejoin_primary o w) in
    if w.recovery_done_found then first (remove_recovery_done ∷ []) cleaned else cleaned

unfoldable pub restore_files : RejoinOptions → RejoinWorld → Rejoining
unfolding clean_directory
restore_files o w =
    let restored = if not w.restore_succeeds then stops err_bad_config else clean_directory o w in
    first (restore_config ∷ []) restored

unfoldable pub execute_rewind : RejoinOptions → RejoinWorld → Rejoining
unfolding restore_files
execute_rewind o w =
    let rewound = if w.rewind_succeeds then restore_files o w else stops err_rejoin_fail in
    if o.dry_run then rejoin_primary o w else first (pg_rewind ∷ []) rewound

-- In a dry run the archive of the configuration files is only a check.
unfoldable pub rewind : RejoinOptions → RejoinWorld → Rejoining
unfolding execute_rewind
rewind o w =
    let archived = if not w.archive_succeeds then stops err_bad_config else execute_rewind o w in
    if not w.can_use_pg_rewind then stops err_bad_config else first (archive_config ∷ []) archived

unfoldable pub do_node_rejoin : RejoinOptions → RejoinWorld → Rejoining
unfolding check_stopped check_primary rewind
do_node_rejoin o w =
    rejoin_unless (check_stopped w (check_primary o w))
      (if o.force_rewind_used then rewind o w else rejoin_primary o w)
