-- ===== src/Failover/Steps.antt =====
-- `get_new_primary` of dbutils.c, and `wait_primary_notification`, `promote_self`,
-- `notify_followers` and `follow_new_primary` of repmgrd-physical.c.
use repmgr.Base.{
  ℕ, zero, suc, ◌+◌, ℤ, pos, ◌==ℤ◌, Bool, true, false, not, ◌&&◌, Option, none, some, List, [], ◌∷◌,
  ◌==◌, if◌then◌else◌,
}
use repmgr.Nodes.{NodeInfo, ms_degraded, unknown_node_id}
use repmgr.Templates.{parse_follow_command}
use repmgr.Election.Siblings.{Daemon}
use repmgr.Failover.World.{
  FailoverState, failover_promoted, failover_promotion_failed, failover_primary_reappeared,
  failover_unknown, failover_followed_new_primary, failover_follow_fail, Settings, QueryResult,
  value, Exit, exited, signalled, is_primary, Surroundings, Action, run_promote_command,
  increment_current_term, run_follow_command, notify_follow_primary, Done,
}

-- What `get_new_primary` returns and stores in `*primary_node_id`.
unfoldable pub get_new_primary : QueryResult → Bool × ℤ
get_new_primary (value id) = (not (id ==ℤ unknown_node_id), id)
get_new_primary _ = (false, unknown_node_id)

-- The notification loop from second `i` on.
unfoldable pub await_notification : (ℕ → QueryResult) → ℕ → ℕ → Option ℤ
await_notification answers zero i = none
await_notification answers (suc rounds) i =
    let (success, id) = get_new_primary (answers i) in
    let rest = await_notification answers rounds (i + 1) in if success then some id else rest

unfoldable pub notified_on : Daemon → Option ℤ → Option ℤ × Daemon
notified_on daemon (some id) = (some id, daemon)
notified_on daemon none = (none, record daemon { monitoring_state = ms_degraded })

-- The new primary's ID, or `none` after the timeout, with degraded monitoring entered.
unfoldable pub wait_primary_notification : Settings → Surroundings → Daemon → Option ℤ × Daemon
wait_primary_notification settings around daemon =
    notified_on daemon
      (await_notification around.notification settings.primary_notification_timeout 0)

-- The process ended normally with a status other than 0.
abbrev pub command_failed : Exit → Bool
command_failed (exited status) = not (status == 0)
command_failed signalled = false

abbrev is_node : ℤ → Option ℤ → Bool
is_node id none = false
is_node id (some id') = id' ==ℤ id

abbrev refreshed : NodeInfo → Option NodeInfo → NodeInfo
refreshed node none = node
refreshed node (some fresh) = fresh

-- `promote_self` from the promote command on; `failed_id` is the ID of the failed primary's record.
-- A connection to the local node that cannot be established again ends the program.
unfoldable pub run_promotion : Surroundings → Daemon → ℤ → Done
run_promotion around daemon failed_id =
    let ran = run_promote_command around.promote_exit ∷ [] in
    if not around.local_connection && not around.local_reconnects
    then record { exits = true; state = failover_unknown; daemon = daemon; actions = ran }
    else if command_failed around.promote_exit
    then record {
      exits = false;
      state =
          if is_node failed_id around.primary_connection
          then failover_primary_reappeared
          else failover_promotion_failed;
      daemon = daemon;
      actions = ran;
    }
    else record {
      exits = false;
      state = failover_promoted;
      daemon = record daemon {
        local_node_info = refreshed daemon.local_node_info around.local_record_promoted;
      };
      actions = run_promote_command around.promote_exit ∷ increment_current_term ∷ [];
    }

unfoldable pub promote_self : Settings → Surroundings → Daemon → Done
promote_self settings around daemon =
    let refuse : Done = record {
      exits = false;
      state = failover_promotion_failed;
      daemon = daemon;
      actions = [];
    } in
    if daemon.local_node_info.upstream_node_id ==ℤ unknown_node_id
    then (if settings.always_promote then run_promotion around daemon unknown_node_id else refuse)
    else elim (around.node_record daemon.local_node_info.upstream_node_id) [
      | none ↦ refuse
      | some failed_primary ↦ run_promotion around daemon failed_primary.node_id
    ]

unfoldable pub notify_followers : Surroundings → List NodeInfo → ℤ → List Action
notify_followers around [] follow_node_id = []
notify_followers around (node ∷ rest) follow_node_id =
    let later = notify_followers around rest follow_node_id in
    if around.notifiable node
    then notify_follow_primary node.node_id follow_node_id ∷ later
    else later

-- The polls for the local node, from second `i` on.
unfoldable pub await_local : (ℕ → Bool) → ℕ → ℕ → Bool
await_local starts zero i = false
await_local starts (suc rounds) i =
    let rest = await_local starts rounds (i + 1) in if starts i then true else rest

-- `follow_new_primary` once the follow command has succeeded.
unfoldable pub finish_follow : Settings → Surroundings → Daemon → ℤ → FailoverState × Daemon
finish_follow settings around daemon new_primary_id =
    elim (around.record_on_primary new_primary_id) [
      | none ↦ (failover_follow_fail, daemon)
      | some upstream ↦
          let moved = record daemon { upstream_node_info = upstream } in
          elim (around.record_on_primary daemon.local_node_info.node_id) [
            | none ↦ (failover_follow_fail, moved)
            | some local ↦
                let renewed = record moved { local_node_info = local } in
                (
                  if await_local around.local_starts settings.repmgrd_standby_startup_timeout 0
                      then failover_followed_new_primary
                      else failover_follow_fail,
                  renewed,
                )
          ]
    ]

-- `follow_new_primary` once the new primary is known to be one.
unfoldable pub run_follow : Settings → Surroundings → Daemon → ℤ → NodeInfo → Done
run_follow settings around daemon new_primary_id failed_primary =
    let command = parse_follow_command settings.follow_command new_primary_id in
    let ran = run_follow_command command ∷ [] in
    let finished : FailoverState × Daemon = finish_follow settings around daemon new_primary_id in
    if around.follow_exit command ==ℤ pos 0
    then record { exits = false; state = finished.0; daemon = finished.1; actions = ran }
    else record {
      exits = false;
      state = elim (around.old_primary failed_primary) [
        | is_primary ↦ failover_primary_reappeared
        | _ ↦ failover_follow_fail
      ];
      daemon = daemon;
      actions = ran;
    }

unfoldable pub follow_new_primary : Settings → Surroundings → Daemon → ℤ → Done
follow_new_primary settings around daemon new_primary_id =
    let give_up : Done = record {
      exits = false;
      state = failover_follow_fail;
      daemon = daemon;
      actions = [];
    } in
    elim (around.node_record new_primary_id) [
      | none ↦ give_up
      | some new_primary ↦ elim (around.node_record daemon.local_node_info.upstream_node_id) [
        | none ↦ give_up
        | some failed_primary ↦ elim (around.new_primary new_primary) [
          | is_primary ↦ run_follow settings around daemon new_primary_id failed_primary
          | _ ↦ give_up
        ]
      ]
    ]
