-- ===== src/Failover/Cascade.antt =====
-- The failover of a standby whose upstream is another standby: `do_upstream_standby_failover` of
-- repmgrd-physical.c.
use repmgr.Base.{
  ◌≡◌, ◌↔◌, ℤ, pos, negsuc, ◌==ℤ◌, Bool, true, false, not, Option, none, some, List, [], ◌∷◌,
  if◌then◌else◌, arith,
}
use repmgr.Nodes.{NodeInfo, ms_degraded}
use repmgr.Templates.{parse_follow_command}
use repmgr.Election.Siblings.{Daemon, FailoverMode, failover_manual, failover_automatic}
use repmgr.Failover.World.{
  FailoverState, failover_unknown, failover_none, failover_promoted, failover_promotion_failed,
  failover_primary_reappeared, failover_local_node_failure, failover_waiting_new_primary,
  failover_follow_new_primary, failover_requires_manual, failover_followed_new_primary,
  failover_following_original_primary, failover_no_new_primary, failover_follow_fail,
  failover_node_notification_error, failover_election_rerun, Settings, Peer, unreachable,
  in_recovery, is_primary, Surroundings, Action, run_follow_command,
}
use repmgr.Failover.Steps.{await_local}

-- The values of the enumeration.
abbrev pub state_code : FailoverState → ℤ
state_code failover_unknown = negsuc 0
state_code failover_none = pos 0
state_code failover_promoted = pos 1
state_code failover_promotion_failed = pos 2
state_code failover_primary_reappeared = pos 3
state_code failover_local_node_failure = pos 4
state_code failover_waiting_new_primary = pos 5
state_code failover_follow_new_primary = pos 6
state_code failover_requires_manual = pos 7
state_code failover_followed_new_primary = pos 8
state_code failover_following_original_primary = pos 9
state_code failover_no_new_primary = pos 10
state_code failover_follow_fail = pos 11
state_code failover_node_notification_error = pos 12
state_code failover_election_rerun = pos 13

-- The conversion of an enumeration value that a function with result type bool returns.
abbrev pub as_bool : FailoverState → Bool
as_bool state = not (state_code state ==ℤ pos 0)

-- What the function asks of its surroundings besides those of every failover.
pub record CascadeWorld : Type 0 where
  pub around : Surroundings
  pub primary_record : Option NodeInfo
  pub primary_peer : Peer
  pub set_upstream_succeeds : Bool

-- What the function returns, `none` when repmgrd terminates, and leaves behind; and the upstream ID
-- that it writes to the local node's record.
pub record Cascade : Type 0 where
  pub returned : Option Bool
  pub daemon : Daemon
  pub actions : List Action
  pub upstream_written : Option ℤ

abbrev degrade : Daemon → Daemon
degrade daemon = record daemon { monitoring_state = ms_degraded }

abbrev with_upstream : Daemon → ℤ → Option NodeInfo → Daemon
with_upstream daemon primary_id none =
    let local = record (daemon.local_node_info) { upstream_node_id = primary_id } in
    record daemon { local_node_info = local }
with_upstream daemon primary_id (some local) = record daemon { local_node_info = local }

module _ (settings : Settings) (w : CascadeWorld) where
  -- The part from the follow command on.
  unfoldable pub follow_primary : Daemon → ℤ → Cascade
  follow_primary daemon primary_id =
      let command = parse_follow_command settings.follow_command primary_id in
      let ran = run_follow_command command ∷ [] in
      let fresh = w.around.record_on_primary daemon.local_node_info.node_id in
      if not (await_local w.around.local_starts settings.repmgrd_standby_startup_timeout 0)
      then record {
        returned = some (as_bool failover_follow_fail);
        daemon = daemon;
        actions = ran;
        upstream_written = none;
      }
      else if not (w.around.follow_exit command ==ℤ pos 0)
      then record {
        returned = some (as_bool failover_follow_fail);
        daemon = degrade daemon;
        actions = ran;
        upstream_written = none;
      }
      else if not w.set_upstream_succeeds
      then record {
        returned = none;
        daemon = daemon;
        actions = ran;
        upstream_written = some primary_id;
      }
      else record {
        returned = some true;
        daemon = with_upstream daemon primary_id fresh;
        actions = ran;
        upstream_written = some primary_id;
      }

  unfoldable pub if_primary : Daemon → ℤ → Peer → Cascade
  unfolding follow_primary
  if_primary daemon primary_id is_primary = follow_primary daemon primary_id
  if_primary daemon primary_id unreachable = record {
    returned = some false;
    daemon = degrade daemon;
    actions = [];
    upstream_written = none;
  }
  if_primary daemon primary_id in_recovery = record {
    returned = some false;
    daemon = degrade daemon;
    actions = [];
    upstream_written = none;
  }

  unfoldable pub if_automatic : Daemon → FailoverMode → Option NodeInfo → Cascade
  unfolding if_primary
  if_automatic daemon failover_manual found = record {
    returned = some false;
    daemon = daemon;
    actions = [];
    upstream_written = none;
  }
  if_automatic daemon failover_automatic none = record {
    returned = some false;
    daemon = daemon;
    actions = [];
    upstream_written = none;
  }
  if_automatic daemon failover_automatic (some primary) =
      if_primary daemon primary.node_id w.primary_peer

  unfoldable pub do_upstream_standby_failover : Daemon → Cascade
  unfolding if_automatic
  do_upstream_standby_failover daemon =
      if_automatic daemon settings.election.failover w.primary_record

  -- Once it has run the follow command, do_upstream_standby_failover never returns false, also
  -- where the command has failed or the local node does not come back: it returns false exactly
  -- when it has not run the command.
  pub do_upstream_standby_failover-false_iff :
      (daemon : Daemon)
      → ((do_upstream_standby_failover daemon).returned ≡ some false)
        ↔ ((do_upstream_standby_failover daemon).actions ≡ [])
  unfolding do_upstream_standby_failover
  do_upstream_standby_failover-false_iff daemon = (λ h. ground arith, λ h. ground arith)
