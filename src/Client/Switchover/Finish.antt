-- ===== src/Client/Switchover/Finish.antt =====
-- A switchover from the promotion of the local node on: the old primary rejoins, the siblings
-- follow, and the instances of repmgrd are no longer paused.
use repmgr.Base.{
  ℕ, zero, suc, Bool, true, false, not, ◌&&◌, none, some, List, [], ◌∷◌, ◌++◌, map, ltb,
  if◌then◌else◌,
}
use repmgr.Nodes.{Lsn}
use repmgr.Client.Join.{is_attached, joined, check_standby_join}
use repmgr.Client.Promote.Siblings.{Sibling, sibling_nodes_follow}
use repmgr.Client.Switchover.World.{
  SwitchoverOptions, SwitchoverWorld, SwitchoverAction, checkpoint, node_rejoin,
  switchover_notification, sibling, drop_replication_slot, Switchover, ends, err_switchover_fail,
  err_switchover_incomplete,
}
use repmgr.Client.Switchover.Repmgrd.{unpause_repmgrds}

-- The connection that is checked is the one of the superuser where there is one, but the checkpoint
-- is always issued over the latter.
unfoldable pub issue_checkpoint : SwitchoverOptions → SwitchoverWorld → List SwitchoverAction
issue_checkpoint o w =
    let is_superuser = if o.superuser then w.superuser_has_rights else w.local_is_superuser in
    if o.force_rewind_used && is_superuser then checkpoint o.superuser ∷ [] else []

-- The command that makes the old primary a standby, and the notification that follows it.
unfoldable pub rejoin : SwitchoverWorld → Bool → List SwitchoverAction
unfolding check_standby_join
rejoin w rewinds =
    node_rejoin rewinds
    ∷ switchover_notification (w.rejoin_succeeds && joined (check_standby_join w.join))
    ∷ []

-- A connection is made in one of the rounds from `i` on.
unfoldable pub reconnects_to_remote : SwitchoverWorld → ℕ → ℕ → Bool
reconnects_to_remote w zero i = false
reconnects_to_remote w (suc rounds) i =
    let later = reconnects_to_remote w rounds (suc i) in if w.remote_connects i then true else later

-- What is done to the demoted node once it is looked for again.
unfoldable pub clean_up : SwitchoverWorld → Bool → List SwitchoverAction
clean_up w reachable =
    if reachable && w.use_replication_slots then drop_replication_slot ∷ [] else []

-- The siblings follow only with "--siblings-follow".
unfoldable pub follow_up :
    SwitchoverOptions → SwitchoverWorld → List Sibling → List SwitchoverAction
unfolding sibling_nodes_follow
follow_up o w sibling_nodes =
    if o.options.siblings_follow
    then map sibling (sibling_nodes_follow w.local.witness_connects sibling_nodes)
    else []

-- From the rejoin of the old primary on.
unfoldable pub complete : SwitchoverOptions → SwitchoverWorld → List Sibling → Bool → Switchover
unfolding rejoin follow_up reconnects_to_remote clean_up unpause_repmgrds
complete o w sibling_nodes rewinds =
    let reachable = reconnects_to_remote w w.standby_reconnect_timeout 0 in
    record {
      exit_code =
          if reachable && is_attached w.remote_attached
          then none
          else some err_switchover_incomplete;
      actions =
          rejoin w rewinds
          ++ (follow_up o w sibling_nodes ++ (clean_up w reachable ++ unpause_repmgrds o w));
    }

-- Everything after the checkpoint, where the local node has received `received` of the WAL up to
-- `target`.
unfoldable pub finish_switchover :
    SwitchoverOptions → SwitchoverWorld → List Sibling → Lsn → Lsn → Switchover
unfolding complete
finish_switchover o w sibling_nodes received target =
    if ltb received target && not o.force_rewind_used
    then ends err_switchover_fail []
    else complete o w sibling_nodes (ltb received target)
