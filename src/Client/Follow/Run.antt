-- ===== src/Client/Follow/Run.antt =====
-- `do_standby_follow`.
use repmgr.Base.{
  ℕ, zero, suc, ℤ, ◌==ℤ◌, Bool, true, false, not, ◌&&◌, ◌||◌, Option, none, some, List, [],
  if◌then◌else◌,
}
use repmgr.Nodes.{NodeAttached, RecoveryType, rectype_unknown, rectype_primary, rectype_standby}
use repmgr.Election.Follow.{FollowWorld}
use repmgr.Client.Attach.{LocalSystem, check_node_can_attach}
use repmgr.Client.Join.{is_attached}
use repmgr.Client.Promote.Run.{success, err_bad_config, err_db_conn}
use repmgr.Client.Switchover.Checks.{require}
use repmgr.Client.Follow.Internal.{
  FollowAnswers, FollowAction, FollowOutcome, followed, failed, aborted, Following,
  do_standby_follow_internal,
}

abbrev pub err_follow_fail : ℕ
err_follow_fail = 23

-- The options of the command line; without "--upstream-node-id" the primary is followed.
pub record FollowOptions : Type 0 where
  pub dry_run : Bool
  pub force_rewind_used : Bool
  pub upstream_node_id : Option ℤ
  pub wait_provided : Bool

-- The answers; those to the attempts to connect to the node to follow, and to whether the local node
-- is attached, by the round.
pub record StandbyFollowWorld : Type 0 where
  pub local_connects : Bool
  pub recovery_type : RecoveryType
  pub node_record_found : Bool
  pub node_id : ℤ
  pub requested_record_found : Bool
  pub primary_follow_timeout : ℕ
  pub target_connects : ℕ → Bool
  pub primary_node_id : ℕ → ℤ
  pub target_record_found : Bool
  pub target_type : RecoveryType
  pub slots_available : Bool
  pub local_repl_connects : Bool
  pub local_system : Option LocalSystem
  pub target : FollowWorld
  pub primary_connects : Bool
  pub answers : FollowAnswers
  pub standby_follow_timeout : ℕ
  pub attached : ℕ → NodeAttached

-- The exit code, `none` when the function returns, and the actions.
pub record FollowRun : Type 0 where
  pub exit_code : Option ℕ
  pub actions : List FollowAction

abbrev pub exits_with : ℕ → FollowRun
exits_with code = record { exit_code = some code; actions = [] }

abbrev pub run_unless : Option ℕ → FollowRun → FollowRun
run_unless none run = run
run_unless (some code) run = exits_with code

-- The rounds from `i` on: the one in which the wait for the node to follow ends with a connection.
unfoldable pub await_target : FollowOptions → StandbyFollowWorld → ℕ → ℕ → Option ℕ
await_target o w zero i = none
await_target o w (suc rounds) i =
    let later = await_target o w rounds (suc i) in
    if w.target_connects i then some i else if not o.wait_provided then none else later

-- "--upstream-node-id" names another node, which has a record.
unfoldable pub check_requested : FollowOptions → StandbyFollowWorld → Bool
check_requested o w = elim o.upstream_node_id [
  | none ↦ true
  | some id ↦ not (id ==ℤ w.node_id) && w.requested_record_found
]

-- The local node, and the node that is asked for.
unfoldable pub check_follower : FollowOptions → StandbyFollowWorld → Option ℕ → Option ℕ
unfolding check_requested
check_follower o w next =
    let by_type : Option ℕ = elim w.recovery_type [
      | rectype_standby ↦
          require w.node_record_found err_bad_config
            (require (check_requested o w) err_follow_fail next)
      | rectype_primary ↦ some err_bad_config
      | rectype_unknown ↦ some err_db_conn
    ] in
    require w.local_connects err_db_conn by_type

abbrev pub is_known_type : RecoveryType → Bool
is_known_type rectype_unknown = false
is_known_type _ = true

abbrev pub is_primary : RecoveryType → Bool
is_primary rectype_primary = true
is_primary _ = false

abbrev pub is_requested : FollowOptions → Bool
is_requested o = elim o.upstream_node_id [ none ↦ false | some id ↦ true ]

-- The local node's system is identified, and it can attach to the node to follow.
unfoldable pub check_attach : FollowOptions → StandbyFollowWorld → Bool
unfolding check_node_can_attach
check_attach o w = elim w.local_system [
  | none ↦ false
  | some local ↦ check_node_can_attach w.target local false o.force_rewind_used
]

-- The node to follow, once it is connected to, and the primary where it is another one.
unfoldable pub check_target : FollowOptions → StandbyFollowWorld → Option ℕ
unfolding check_attach
check_target o w = require (is_requested o || w.target_record_found) err_follow_fail (
    require (is_known_type w.target_type) err_follow_fail (
      require (not w.answers.use_replication_slots || w.slots_available) err_follow_fail (
        require w.local_repl_connects err_follow_fail (
          require (check_attach o w) err_follow_fail
            (require (is_primary w.target_type || w.primary_connects) err_follow_fail none)))))

-- The rounds from `i` on of the wait for the node to attach, which changes `success` only to true.
unfoldable pub await_follow : StandbyFollowWorld → ℕ → ℕ → Bool → Bool
await_follow w zero i success = success
await_follow w (suc rounds) i success =
    let later = await_follow w rounds (suc i) success in
    if is_attached (w.attached i) then true else later

-- From the result of `do_standby_follow_internal` on; an error code that is not written is still
-- the one for success.
unfoldable pub report : StandbyFollowWorld → FollowOutcome → Option ℕ
unfolding await_follow
report w followed =
    if await_follow w w.standby_follow_timeout 0 true then none else some err_follow_fail
report w (failed none) = some success
report w (failed (some code)) = some code
report w (aborted code) = some code

abbrev pub target_id : FollowOptions → StandbyFollowWorld → ℕ → ℤ
target_id o w i = elim o.upstream_node_id [ none ↦ w.primary_node_id i | some id ↦ id ]

-- Once the node to follow is connected to, in round `i`.
unfoldable pub follow_target : FollowOptions → StandbyFollowWorld → ℕ → FollowRun
unfolding check_target do_standby_follow_internal report
follow_target o w i =
    let run : Following = do_standby_follow_internal w.answers (target_id o w i) err_follow_fail in
    run_unless (check_target o w) (
      if o.dry_run
      then exits_with success
      else record { exit_code = report w run.outcome; actions = run.actions })

abbrev pub follow_awaited : FollowOptions → StandbyFollowWorld → Option ℕ → FollowRun
follow_awaited o w none = exits_with err_follow_fail
follow_awaited o w (some i) = follow_target o w i

unfoldable pub do_standby_follow : FollowOptions → StandbyFollowWorld → FollowRun
unfolding check_follower await_target follow_target
do_standby_follow o w =
    run_unless (check_follower o w none)
      (follow_awaited o w (await_target o w w.primary_follow_timeout 0))
