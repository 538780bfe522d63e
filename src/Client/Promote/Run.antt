-- ===== src/Client/Promote/Run.antt =====
-- `do_standby_promote` and `_do_standby_promote_internal`.
use repmgr.Base.{
  ℕ, zero, suc, ◌+◌, ℤ, pos, ◌==ℤ◌, Bool, true, false, not, ◌&&◌, ◌||◌, Option, none, some, List,
  [], ◌∷◌, ◌++◌, map, ltb, if◌then◌else◌,
}
use repmgr.Nodes.{RecoveryType, rectype_unknown, rectype_primary, rectype_standby}
use repmgr.Client.Promote.Siblings.{
  Options, Sibling, no_siblings, SiblingCheck, check_sibling_nodes, check_free_wal_senders,
  check_free_slots, SiblingAction, sibling_nodes_follow,
}

-- The exit codes.
abbrev pub success : ℕ
success = 0

abbrev pub err_bad_config : ℕ
err_bad_config = 1

abbrev pub err_db_conn : ℕ
err_db_conn = 6

abbrev pub err_db_query : ℕ
err_db_query = 7

abbrev pub err_promotion_fail : ℕ
err_promotion_fail = 8

-- The answers of the local database, of the siblings' hosts and of the shell. The free WAL senders
-- and slots are the differences that the source computes; the polls count the seconds.
pub record PromoteWorld : Type 0 where
  pub recovery_type : RecoveryType
  pub node_record_found : Bool
  pub server_version_num : ℕ
  pub receiving_streamed_wal : Option Bool
  pub wal_replay_paused : Bool → Bool
  pub active_primary : Bool
  pub available_wal_senders : ℤ
  pub available_slots : ℤ
  pub sibling_nodes : List Sibling
  pub ssh_ok : Sibling → Bool
  pub witness_connects : Sibling → Bool
  pub node_record_found_again : Bool
  pub service_promote_command : List ℕ
  pub can_execute_pg_promote : Bool
  pub pg_promote_executed : Bool
  pub promote_command_status : ℤ
  pub promote_check_timeout : ℕ
  pub promote_check_interval : ℕ
  pub recovery_at : ℕ → RecoveryType
  pub record_updated : Bool

pub data PromoteAction : Type 0 where
  pg_promote promote_command update_node_record : PromoteAction
  to_sibling : SiblingAction → PromoteAction

-- The exit code, `none` when the function returns, and the actions.
pub record Promotion : Type 0 where
  pub exit_code : Option ℕ
  pub actions : List PromoteAction

abbrev pub exits : ℕ → List PromoteAction → Promotion
exits code actions = record { exit_code = some code; actions = actions }

-- WAL replay is paused, where the server is so old that this matters; `none` without an answer.
unfoldable pub replay_paused : PromoteWorld → Option Bool
replay_paused w =
    if ltb w.server_version_num 130000
    then (elim w.receiving_streamed_wal [
      | none ↦ none
      | some streaming ↦ some (w.wal_replay_paused streaming)
    ])
    else some false

abbrev pub is_paused : Option Bool → Bool
is_paused none = true
is_paused (some paused) = paused

-- The checks of the local node and of the cluster: the exit code, or `none`.
unfoldable pub check_cluster : PromoteWorld → RecoveryType → Option ℕ
unfolding replay_paused
check_cluster w rectype_primary = some err_promotion_fail
check_cluster w rectype_unknown = some err_db_conn
check_cluster w rectype_standby =
    if not w.node_record_found
    then some err_db_query
    else if is_paused (replay_paused w)
    then some err_promotion_fail
    else if w.active_primary
    then some err_promotion_fail
    else none

-- The polls from second `i` on; `fuel` bounds their number, and `last` is the answer so far.
unfoldable pub poll : PromoteWorld → ℕ → ℕ → RecoveryType → RecoveryType
poll w zero i last = last
poll w (suc fuel) i last =
    let later = poll w fuel (i + w.promote_check_interval) (w.recovery_at i) in
    if ltb i w.promote_check_timeout
    then (elim (w.recovery_at i) [ rectype_primary ↦ rectype_primary | _ ↦ later ])
    else last

-- After the polls, which have seen a primary exactly when they end with one.
unfoldable pub finish_promotion :
    PromoteWorld → List PromoteAction → List PromoteAction → RecoveryType → Promotion
finish_promotion w before after rectype_standby = exits err_promotion_fail before
finish_promotion w before after rectype_unknown = exits err_db_conn before
finish_promotion w before after rectype_primary =
    if w.record_updated
    then record { exit_code = none; actions = before ++ update_node_record ∷ after }
    else exits err_db_query (before ++ update_node_record ∷ [])

abbrev pub use_pg_promote : PromoteWorld → Bool
use_pg_promote w =
    not (ltb w.server_version_num 120000)
    && (elim w.service_promote_command [ [] ↦ w.can_execute_pg_promote | char ∷ rest ↦ false ])

-- `_do_standby_promote_internal`, and then the actions `after` if it returns.
unfoldable pub promote_internal : PromoteWorld → List PromoteAction → Promotion
unfolding poll finish_promotion
promote_internal w after =
    let polled = poll w w.promote_check_timeout 0 rectype_unknown in
    if not w.node_record_found_again
    then exits err_bad_config []
    else if use_pg_promote w
    then (if w.pg_promote_executed
        then finish_promotion w (pg_promote ∷ []) after polled
        else exits err_promotion_fail (pg_promote ∷ []))
    else if w.promote_command_status ==ℤ pos 0
    then finish_promotion w (promote_command ∷ []) after polled
    else exits err_promotion_fail (promote_command ∷ [])

-- From the list of siblings on.
unfoldable pub check_prerequisites : Options → PromoteWorld → Promotion
unfolding check_sibling_nodes check_free_wal_senders check_free_slots promote_internal
    sibling_nodes_follow
check_prerequisites options w =
    let siblings : SiblingCheck =
      check_sibling_nodes options w.ssh_ok w.sibling_nodes no_siblings in
    let senders = check_free_wal_senders options w.available_wal_senders siblings.stats true in
    let slots = check_free_slots options w.available_slots siblings.stats senders.dry_run_success in
    let fatal = not options.dry_run || not options.force in
    let after =
      if options.siblings_follow
      then map to_sibling (sibling_nodes_follow w.witness_connects siblings.sibling_nodes)
      else [] in
    if not siblings.result
    then exits err_bad_config []
    else if not senders.result && fatal
    then exits err_bad_config []
    else if not slots.result && fatal
    then exits err_bad_config []
    else if options.dry_run
    then (if slots.dry_run_success then exits success [] else exits err_bad_config [])
    else promote_internal w after

abbrev pub unless_exit : Option ℕ → Promotion → Promotion
unless_exit none p = p
unless_exit (some code) p = exits code []

unfoldable pub do_standby_promote : Options → PromoteWorld → Promotion
unfolding check_cluster check_prerequisites
do_standby_promote options w =
    unless_exit (check_cluster w w.recovery_type) (check_prerequisites options w)
