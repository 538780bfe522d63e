-- ===== src/Monitor/Attentive.antt =====
-- What a witness's repmgrd keeps from round to round.
use repmgr.Base.{
  ◌≡◌, refl, ap, ◌++◌, ℤ, Bool, true, false, ◌||◌, Option, none, some, List, [], ◌∷◌, map,
  if◌then◌else◌, arith,
}
use repmgr.Nodes.{
  NodeInfo, node_status_up, node_status_unknown, MonitoringState, ms_normal, ms_degraded,
}
use repmgr.Election.Siblings.{Daemon}
use repmgr.Failover.World.{FailoverState, Surroundings}
use repmgr.Failover.Witness.{
  WitnessAction, WitnessDone, witness_attach, witness_follow_new_primary, WitnessFailover,
  witness_dispatch, heed_witness, do_witness_failover,
}
use repmgr.Failover.Steps.{wait_primary_notification}
use repmgr.Reconnect.Settled.{try_reconnect-Settles}
use repmgr.Reconnect.Outcome.{is_down}
use repmgr.Monitor.Upstream.{check_upstream_connection}
use repmgr.Monitor.State.{MonitorSettings}
use repmgr.Monitor.Lost.{is_up}
use repmgr.Monitor.Local.{is_degraded}
use repmgr.Monitor.Degraded.{find_primary}
use repmgr.Monitor.Witness.{
  WitnessWorld, WitnessEffect, set_upstream_last_seen, witness_act, WitnessNext, stays, leaves,
  serves, with_upstream_status, sync_records, lose_local_node, recover_local_node, check_local_node,
  follow_sibling, witness_degraded, witness_state, witness_fails_over, attempt_primary,
  lose_primary, witness_round,
}

-- The primary is expected to be up, so that its loss is noticed, or monitoring is degraded, so that
-- a primary is looked for.
abbrev pub attends : Daemon → Bool
attends d = is_up d.upstream_node_info.node_status || is_degraded d.monitoring_state

-- The function returns, or the loop goes on with the primary or a new one looked for.
abbrev pub Attends : WitnessNext → Type 0
Attends (stays d effects) = attends d ≡ true
Attends (leaves d effects) = Unit

Attends-if : (t : Bool) (x y : WitnessNext) → Attends x → Attends y → Attends (if t then x else y)
Attends-if true x y hx hy = hx
Attends-if false x y hx hy = hy

Attends-cases :
    (t : Bool) (x y : WitnessNext)
    → (t ≡ true → Attends x)
    → (t ≡ false → Attends y)
    → Attends (if t then x else y)
Attends-cases true x y hx hy = hx refl
Attends-cases false x y hx hy = hy refl

pub witness_follow_new_primary-monitoring :
    (around : Surroundings) (d : Daemon) (id : ℤ)
    → (witness_follow_new_primary around d id).daemon.monitoring_state ≡ d.monitoring_state
unfolding witness_follow_new_primary witness_attach
witness_follow_new_primary-monitoring around d id = ground arith

witness_dispatch-degraded :
    (state : FailoverState) (d : Daemon) (a : List WitnessAction)
    → (witness_dispatch state d a).returned ≡ false
    → is_degraded (witness_dispatch state d a).daemon.monitoring_state ≡ true
unfolding witness_dispatch
witness_dispatch-degraded state d a h = ground (arith, h)

module _ (settings : MonitorSettings) (w : WitnessWorld) where
  sync_records-Attends :
      (d : Daemon) (before : List WitnessEffect)
      → attends d ≡ true
      → Attends (sync_records settings w d before)
  unfolding sync_records
  sync_records-Attends d before h = ground (arith, h)

  check_local_node-Attends :
      (d : Daemon) (before : List WitnessEffect)
      → attends d ≡ true
      → Attends (check_local_node settings w d before)
  unfolding check_local_node lose_local_node recover_local_node
  check_local_node-Attends d before h = ground (arith, h)

  follow_sibling-Attends :
      (d : Daemon) (before : List WitnessEffect) (found : Option NodeInfo)
      → is_degraded d.monitoring_state ≡ true
      → Attends (follow_sibling settings w d before found)
  unfolding follow_sibling
  follow_sibling-Attends d before none h = check_local_node-Attends d before (ground (arith, h))
  follow_sibling-Attends d before (some node) h =
      let done : WitnessDone = witness_follow_new_primary w.around d node.node_id in
      check_local_node-Attends done.daemon (before ++ map witness_act done.actions)
        (ground (arith, h, witness_follow_new_primary-monitoring w.around d node.node_id))

  abbrev found : Daemon → Option NodeInfo
  found d = find_primary d.local_node_info.node_id w.sibling_peer w.siblings

  witness_degraded-Attends :
      (d : Daemon) (before : List WitnessEffect)
      → is_degraded d.monitoring_state ≡ true
      → Attends (witness_degraded settings w d before)
  unfolding witness_degraded
  witness_degraded-Attends d before h =
      let recovered = record (with_upstream_status d node_status_up) {
        monitoring_state = ms_normal;
      } in
      let goes_on = check_local_node settings w in
      Attends-if _ _ _
        (Attends-if w.upstream_connected
          (if serves w.degraded_type then goes_on recovered before else leaves recovered before)
          (goes_on d before)
          (Attends-if (serves w.degraded_type) (goes_on recovered before) (leaves recovered before)
            (check_local_node-Attends recovered before refl) tt)
          (check_local_node-Attends d before (ground (arith, h))))
        (follow_sibling-Attends d before (found d) h)

  witness_state-Attends :
      (d : Daemon) (before : List WitnessEffect) (state : MonitoringState)
      → d.monitoring_state ≡ state
      → attends d ≡ true
      → Attends (witness_state settings w d before state)
  unfolding witness_state
  witness_state-Attends d before ms_degraded e h =
      witness_degraded-Attends d before (ap is_degraded e)
  witness_state-Attends d before ms_normal e h = check_local_node-Attends d before h

  do_witness_failover-degraded :
      (d : Daemon)
      → (do_witness_failover settings.failover w.around d).returned ≡ false
      → is_degraded (do_witness_failover settings.failover w.around d).daemon.monitoring_state
        ≡ true
  unfolding do_witness_failover
  do_witness_failover-degraded d h =
      let done : WitnessDone =
        heed_witness settings.failover w.around
          (wait_primary_notification settings.failover w.around d) in
      witness_dispatch-degraded done.state done.daemon done.actions h

  witness_fails_over-Attends : (d : Daemon) → Attends (witness_fails_over settings w d)
  unfolding witness_fails_over
  witness_fails_over-Attends d =
      let failover : WitnessFailover = do_witness_failover settings.failover w.around d in
      let effects = map witness_act failover.actions in
      Attends-cases failover.returned (leaves failover.daemon effects)
        (witness_state settings w failover.daemon effects failover.daemon.monitoring_state)
        (λ returned. tt)
        (λ failed.
          witness_state-Attends failover.daemon effects failover.daemon.monitoring_state refl
            (ground (arith, do_witness_failover-degraded d failed)))

  lose_primary-Attends : (d : Daemon) → Attends (lose_primary settings w d)
  unfolding lose_primary
  lose_primary-Attends d =
      let status = (attempt_primary settings w).node_status in
      let tried = with_upstream_status d status in
      let settled =
        try_reconnect-Settles w.attempts settings.reconnect_interval node_status_unknown
          settings.reconnect_attempts in
      Attends-cases (is_up status)
        (if serves w.reconnected_type
          then check_local_node settings w tried []
          else leaves tried [])
        (if is_down status
          then witness_fails_over settings w tried
          else witness_state settings w tried [] tried.monitoring_state)
        (λ up.
          Attends-if (serves w.reconnected_type) (check_local_node settings w tried [])
            (leaves tried []) (check_local_node-Attends tried [] (ground (arith, up))) tt)
        (λ lost.
          Attends-cases (is_down status) (witness_fails_over settings w tried)
            (witness_state settings w tried [] tried.monitoring_state)
            (λ down. witness_fails_over-Attends tried)
            (λ neither. absurd (ground (arith, settled, lost, neither))))

  pub witness_round-Attends : (d : Daemon) → attends d ≡ true → Attends (witness_round settings w d)
  unfolding witness_round
  witness_round-Attends d h =
      let seen = set_upstream_last_seen d.upstream_node_info.node_id ∷ [] in
      Attends-if (check_upstream_connection settings.connection_check_type w.probe).result
        (witness_state settings w d seen d.monitoring_state)
        (if is_up d.upstream_node_info.node_status
          then lose_primary settings w d
          else witness_state settings w d [] d.monitoring_state)
        (witness_state-Attends d seen d.monitoring_state refl h)
        (Attends-if (is_up d.upstream_node_info.node_status) (lose_primary settings w d)
          (witness_state settings w d [] d.monitoring_state) (lose_primary-Attends d)
          (witness_state-Attends d [] d.monitoring_state refl h))
