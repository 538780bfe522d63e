-- ===== src/Client/Switchover/Run.antt =====
-- `do_standby_switchover`.
use repmgr.Base.{
  ℕ, Bool, true, not, ◌&&◌, ◌||◌, Option, none, some, List, [], ◌∷◌, map, ltb, if◌then◌else◌,
}
use repmgr.Nodes.{Lsn}
use repmgr.Client.Promote.Siblings.{
  Sibling, SiblingNodeStats, no_siblings, SiblingCheck, check_sibling_nodes, Checked,
  check_free_wal_senders, check_free_slots,
}
use repmgr.Client.Promote.Run.{
  PromoteWorld, Promotion, success, err_bad_config, err_db_conn, promote_internal,
}
use repmgr.Client.Switchover.World.{
  SwitchoverOptions, SwitchoverWorld, SwitchoverAction, list_stop_actions, stop_primary, promotion,
  Switchover, ends, after, err_switchover_fail,
}
use repmgr.Client.Switchover.Checks.{require, check_nodes, check_replication}
use repmgr.Client.Switchover.Repmgrd.{RepmgrdSurvey, instances, survey, pause_repmgrds}
use repmgr.Client.Switchover.Shutdown.{
  ShutdownResult, shut_down, unclean, not_confirmed, await_shutdown, await_wal,
}
use repmgr.Client.Switchover.Finish.{issue_checkpoint, finish_switchover}

abbrev pub or_exit : Option ℕ → Switchover → Switchover
or_exit none s = s
or_exit (some code) s = ends code []

-- The connection over which the local node is promoted.
abbrev pub promotes_over : SwitchoverOptions → SwitchoverWorld → PromoteWorld
promotes_over o w =
    if not (ltb w.local.server_version_num 120000) && o.superuser then w.as_superuser else w.local

-- The promotion goes on with `next` if it returns.
abbrev pub if_returned : Option ℕ → List SwitchoverAction → Switchover → Switchover
if_returned none actions next = after actions next
if_returned (some code) actions next = ends code actions

abbrev pub if_promoted : Promotion → Switchover → Switchover
if_promoted p next = if_returned p.exit_code (map promotion p.actions) next

-- From the end of the wait for WAL on, of which the local node has received `received`.
unfoldable pub promote_and_finish :
    SwitchoverOptions → SwitchoverWorld → List Sibling → Lsn → Lsn → Switchover
unfolding promote_internal issue_checkpoint finish_switchover
promote_and_finish o w sibling_nodes received target =
    if ltb received target && not o.always_promote
    then ends err_switchover_fail []
    else if_promoted (promote_internal (promotes_over o w) [])
        (after (issue_checkpoint o w) (finish_switchover o w sibling_nodes received target))

-- From the end of the wait for the shutdown on.
unfoldable pub take_over :
    SwitchoverOptions → SwitchoverWorld → List Sibling → ShutdownResult → Switchover
unfolding await_wal promote_and_finish
take_over o w sibling_nodes unclean = ends err_switchover_fail []
take_over o w sibling_nodes not_confirmed = ends err_switchover_fail []
take_over o w sibling_nodes (shut_down target) =
    if not w.local_connection_ok && not w.local_reconnects
    then ends err_db_conn []
    else promote_and_finish o w sibling_nodes (await_wal w target w.wal_receive_check_timeout 0 0)
        target

-- From the pauses of the instances of repmgrd on, in a real run.
unfoldable pub stop_and_take_over : SwitchoverOptions → SwitchoverWorld → List Sibling → Switchover
unfolding pause_repmgrds await_shutdown take_over
stop_and_take_over o w sibling_nodes =
    let stopped = await_shutdown o.options.force w w.shutdown_check_timeout 0 0 in
    after (pause_repmgrds o w) (after (stop_primary ∷ []) (take_over o w sibling_nodes stopped))

-- The same in a dry run, which pauses nothing.
unfoldable pub list_actions : Bool → Switchover
list_actions dry_run_success =
    ends (if dry_run_success then success else err_bad_config) (list_stop_actions ∷ [])

unfoldable pub switch_over : SwitchoverOptions → SwitchoverWorld → List Sibling → Bool → Switchover
unfolding stop_and_take_over list_actions
switch_over o w sibling_nodes dry_run_success =
    if o.options.dry_run then list_actions dry_run_success else stop_and_take_over o w sibling_nodes

-- What the old primary itself needs once it is a standby.
abbrev pub demotion_needs : SwitchoverWorld → SiblingNodeStats
demotion_needs w = record no_siblings {
  min_required_wal_senders = 1;
  min_required_free_slots = elim w.remote_slot_name [ [] ↦ 0 | char ∷ rest ↦ 1 ];
}

module _ (o : SwitchoverOptions) (w : SwitchoverWorld) where
  abbrev pub siblings : SiblingCheck
  siblings = check_sibling_nodes o.options w.local.ssh_ok w.local.sibling_nodes (demotion_needs w)

  abbrev pub senders : Checked
  senders = check_free_wal_senders o.options w.local.available_wal_senders siblings.stats true

  abbrev pub slots : Checked
  slots = check_free_slots o.options w.local.available_slots siblings.stats senders.dry_run_success

-- From the list of siblings on to the pauses.
unfoldable pub check_capacity : SwitchoverOptions → SwitchoverWorld → Option ℕ
unfolding check_sibling_nodes check_free_wal_senders check_replication check_free_slots survey
check_capacity o w =
    let found : RepmgrdSurvey = instances o w in
    let unreachable = ltb 0 found.unreachable_node_count in
    require (siblings o w).result err_bad_config (
      require ((senders o w).result || o.options.dry_run) err_bad_config (
        check_replication o.options.force w (
          require ((slots o w).result || o.options.dry_run) err_bad_config
            (require (not unreachable || o.options.force) err_switchover_fail none))))

unfoldable pub do_standby_switchover : SwitchoverOptions → SwitchoverWorld → Switchover
unfolding check_nodes check_capacity switch_over
do_standby_switchover o w =
    or_exit (check_nodes o w (check_capacity o w))
      (switch_over o w (siblings o w).sibling_nodes (slots o w).dry_run_success)
