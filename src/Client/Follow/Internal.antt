-- ===== src/Client/Follow/Internal.antt =====
-- `do_standby_follow_internal`, by which a standby follows another node.
use repmgr.Base.{
  ℕ, ℤ, ◌==ℤ◌, Bool, true, false, not, ◌&&◌, Option, none, some, List, [], ◌∷◌, ◌++◌, ltb,
  if◌then◌else◌,
}
use repmgr.Nodes.{unknown_node_id}
use repmgr.Client.Promote.Run.{err_bad_config, err_db_conn}

abbrev pub err_no_restart : ℕ
err_no_restart = 4

-- What the function asks; the fields `…_succeeds` are the results of the commands of the server.
pub record FollowAnswers : Type 0 where
  pub node_record_found : Bool
  pub use_replication_slots : Bool
  pub slot_name : List ℕ
  pub create_slot_succeeds : Bool
  pub upstream_node_id : ℤ
  pub host_param_provided : Bool
  pub local_connects : Bool
  pub original_record_found : Bool
  pub recovery_file_written : Bool
  pub server_up : Bool
  pub server_version_num : ℕ
  pub standby_follow_restart : Bool
  pub reload_succeeds : Bool
  pub service_restart_command : List ℕ
  pub stop_succeeds : Bool
  pub start_succeeds : Bool
  pub restart_succeeds : Bool
  pub old_upstream_connects : Bool
  pub update_succeeds : Bool

pub data FollowAction : Type 0 where
  update_slot_name create_replication_slot write_recovery_file : FollowAction
  reload_server stop_server start_server restart_server : FollowAction
  drop_old_slot update_node_status : FollowAction

-- The function returns true, or false with the error code that it writes, if any; or the program
-- ends with a code.
pub data FollowOutcome : Type 0 where
  followed : FollowOutcome
  failed : Option ℕ → FollowOutcome
  aborted : ℕ → FollowOutcome

pub record Following : Type 0 where
  pub outcome : FollowOutcome
  pub actions : List FollowAction

abbrev pub ends_with : FollowOutcome → Following
ends_with outcome = record { outcome = outcome; actions = [] }

-- An action, and what follows it if it succeeds; its failure is `code`.
abbrev pub attempt : FollowAction → Bool → Option ℕ → Following → Following
attempt action succeeds code next =
    let rest : Following = if succeeds then next else ends_with (failed code) in
    record { outcome = rest.outcome; actions = action ∷ rest.actions }

abbrev pub preceded : List FollowAction → Following → Following
preceded before next = record { outcome = next.outcome; actions = before ++ next.actions }

abbrev pub is_empty : List ℕ → Bool
is_empty [] = true
is_empty (char ∷ rest) = false

module _ (w : FollowAnswers) (target_id : ℤ) (general_error_code : ℕ) where
  -- The slot on the old upstream is to be dropped.
  unfoldable pub remove_old_slot : Bool
  remove_old_slot =
      w.use_replication_slots
      && not w.host_param_provided
      && not (w.upstream_node_id ==ℤ unknown_node_id)
      && not (w.upstream_node_id ==ℤ target_id)

  -- From the label `cleanup` on.
  unfoldable pub clean_up_follow : Following
  unfolding remove_old_slot
  clean_up_follow =
      preceded
        (if remove_old_slot && w.original_record_found && w.old_upstream_connects
          then drop_old_slot ∷ []
          else [])
        (attempt update_node_status w.update_succeeds none (ends_with followed))

  unfoldable pub restart_standby : Following
  unfolding clean_up_follow
  restart_standby =
      if is_empty w.service_restart_command
      then attempt stop_server w.stop_succeeds (some err_no_restart)
          (attempt start_server w.start_succeeds (some err_no_restart) clean_up_follow)
      else attempt restart_server w.restart_succeeds (some err_no_restart) clean_up_follow

  -- The server takes the new settings; a reload that fails is followed by a restart.
  unfoldable pub apply_settings : Following
  unfolding restart_standby
  apply_settings =
      if not w.server_up
      then attempt start_server w.start_succeeds (some err_no_restart) clean_up_follow
      else if not (ltb w.server_version_num 130000) && not w.standby_follow_restart
      then preceded (reload_server ∷ [])
          (if w.reload_succeeds then clean_up_follow else restart_standby)
      else restart_standby

  unfoldable pub write_settings : Following
  unfolding remove_old_slot apply_settings
  write_settings =
      if remove_old_slot && not w.local_connects
      then ends_with (aborted err_db_conn)
      else attempt write_recovery_file w.recovery_file_written (some general_error_code)
          apply_settings

  unfoldable pub do_standby_follow_internal : Following
  unfolding write_settings
  do_standby_follow_internal =
      let named = if is_empty w.slot_name then update_slot_name ∷ [] else [] in
      if not w.node_record_found
      then ends_with (failed (some err_bad_config))
      else if w.use_replication_slots
      then preceded named (
          attempt create_replication_slot w.create_slot_succeeds (some general_error_code)
            write_settings)
      else write_settings
