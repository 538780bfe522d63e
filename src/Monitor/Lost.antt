-- ===== src/Monitor/Lost.antt =====
-- `monitor_streaming_standby` from the check of the upstream to the end of a failover.
use repmgr.Base.{
  Option, ℤ, ◌==ℤ◌, Bool, true, false, not, ◌&&◌, none, some, List, [], ◌∷◌, ◌++◌, if◌then◌else◌,
}
use repmgr.Nodes.{
  ServerType, NodeStatus, node_status_unknown, node_status_up, node_status_down, ms_degraded,
  unknown_node_id, election_rerun_notification,
}
use repmgr.Failover.Steps.{follow_new_primary}
use repmgr.Failover.World.{Done}
use repmgr.Failover.Primary.{Failover, do_primary_failover}
use repmgr.Failover.Cascade.{Cascade, do_upstream_standby_failover}
use repmgr.Reconnect.{Reconnection, try_primary_reconnect, try_reconnect}
use repmgr.Monitor.Upstream.{check_upstream_connection}
use repmgr.Monitor.State.{
  Monitor, MonitorSettings, RoundWorld, Effect, set_upstream_last_seen, set_upstream_id, acts,
  Phase, proceed, to_loop, leave, terminate, with_daemon, with_status, with_monitoring,
  with_upstream_id,
}

abbrev pub is_primary_type : ServerType → Bool
is_primary_type ServerType.primary = true
is_primary_type _ = false

abbrev pub is_up : NodeStatus → Bool
is_up node_status_up = true
is_up _ = false

-- The write of a new upstream ID.
abbrev pub written : Option ℤ → List Effect
written none = []
written (some id) = set_upstream_id id ∷ []

module _ (settings : MonitorSettings) (w : RoundWorld) where
  -- What a failover leaves; monitoring is restarted after a successful one.
  unfoldable pub after_failover : Monitor → List Effect → Failover → Phase
  after_failover m before f =
      let effects = before ++ acts f.actions in
      let m' : Monitor = record m { daemon = f.daemon; failover_state = f.state } in
      if f.exits
      then terminate effects
      else if f.final_result
      then leave (record m' { primary_node_id = w.primary_node_id }) effects
      else proceed m' effects

  unfoldable pub after_cascade : Monitor → List Effect → Cascade → Phase
  after_cascade m before c =
      let effects = before ++ acts c.actions ++ written c.upstream_written in
      let m' = with_daemon m c.daemon in
      elim c.returned [
        | none ↦ terminate effects
        | some finished ↦
            if finished
            then leave (record m' { primary_node_id = w.primary_node_id }) effects
            else proceed (with_monitoring m' ms_degraded) effects
      ]

  abbrev pub primary_failover : Monitor → Failover
  primary_failover m = do_primary_failover settings.failover w.cascade.around m.daemon

  unfoldable pub fail_over : Monitor → List Effect → ServerType → Phase
  unfolding after_failover after_cascade
  fail_over m before ServerType.primary = after_failover m before (primary_failover m)
  fail_over m before ServerType.standby =
      after_cascade m before (do_upstream_standby_failover settings.failover w.cascade m.daemon)
  fail_over m before _ = proceed m before

  -- The upstream is still down after the attempts to reconnect.
  unfoldable pub upstream_down : Monitor → List Effect → Phase
  unfolding fail_over
  upstream_down m before =
      if w.local_connected && w.paused
      then proceed (with_monitoring m ms_degraded) before
      else fail_over m before m.daemon.upstream_node_info.type

  -- The upstream has recovered.
  unfoldable pub upstream_recovered : Monitor → List Effect → Phase
  upstream_recovered m before =
      if is_primary_type m.daemon.upstream_node_info.type && w.upstream_in_recovery
      then leave (with_upstream_id m unknown_node_id) before
      else to_loop m before

  unfoldable pub by_status : Monitor → List Effect → NodeStatus → Phase
  unfolding upstream_down upstream_recovered
  by_status m before node_status_up = upstream_recovered m before
  by_status m before node_status_down = upstream_down m before
  by_status m before _ = proceed m before

  -- After a failover that an election rerun has triggered: out of the function, or on by the
  -- upstream's status.
  unfoldable pub after_rerun : Phase → Phase
  unfolding by_status
  after_rerun (proceed m effects) = by_status m effects m.daemon.upstream_node_info.node_status
  after_rerun phase = phase

  -- What follows the attempts to reconnect to a primary, which have returned `id`.
  unfoldable pub heed_reconnect : Monitor → ℤ → Phase
  unfolding after_rerun after_failover by_status
  heed_reconnect m id =
      let followed : Done = follow_new_primary settings.failover w.cascade.around m.daemon id in
      if id ==ℤ election_rerun_notification
      then after_rerun (after_failover m [] (primary_failover m))
      else if not (id ==ℤ unknown_node_id)
      then leave (with_daemon m followed.daemon) (acts followed.actions)
      else by_status m [] m.daemon.upstream_node_info.node_status

  abbrev pub attempt_primary : Reconnection
  attempt_primary =
      try_primary_reconnect w.attempts settings.reconnect_interval node_status_unknown
        settings.reconnect_attempts

  abbrev pub attempt_other : Reconnection
  attempt_other =
      try_reconnect w.attempts settings.reconnect_interval node_status_unknown
        settings.reconnect_attempts

  -- The upstream is down, and was expected to be up.
  unfoldable pub lose_upstream : Monitor → Phase
  unfolding heed_reconnect by_status
  lose_upstream m =
      let tried = with_status m attempt_primary.node_status in
      let tried_other = with_status m attempt_other.node_status in
      if is_primary_type m.daemon.upstream_node_info.type
      then heed_reconnect (record tried { primary_node_id = attempt_primary.new_primary_node_id })
          attempt_primary.new_primary_node_id
      else by_status tried_other [] attempt_other.node_status

  unfoldable pub check_upstream : Monitor → Phase
  unfolding lose_upstream check_upstream_connection
  check_upstream m =
      if (check_upstream_connection settings.connection_check_type w.probe).result
      then proceed m (set_upstream_last_seen m.daemon.upstream_node_info.node_id ∷ [])
      else if is_up m.daemon.upstream_node_info.node_status
      then lose_upstream m
      else proceed m []
