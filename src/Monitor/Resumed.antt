-- ===== src/Monitor/Resumed.antt =====
-- When a witness's repmgrd leaves degraded monitoring.
use repmgr.Base.{
  ◌≡◌, refl, ap, ◌∙◌, ◌++◌, Bool, true, false, not, ◌&&◌, ◌||◌, Option, none, some, List, [], ◌∷◌,
  map, if◌then◌else◌, arith,
}
use repmgr.Nodes.{NodeInfo, node_status_up, MonitoringState, ms_normal, ms_degraded}
use repmgr.Election.Siblings.{Daemon}
use repmgr.Failover.Witness.{WitnessDone, witness_follow_new_primary}
use repmgr.Monitor.Upstream.{check_upstream_connection}
use repmgr.Monitor.State.{MonitorSettings}
use repmgr.Monitor.Lost.{is_up}
use repmgr.Monitor.Local.{is_degraded}
use repmgr.Monitor.Degraded.{find_primary}
use repmgr.Monitor.Witness.{
  WitnessWorld, WitnessEffect, set_upstream_last_seen, witness_act, WitnessNext, stays, leaves,
  serves, with_upstream_status, sync_records, lose_local_node, recover_local_node, check_local_node,
  follow_sibling, witness_degraded, witness_state, lose_primary, witness_round,
}
use repmgr.Monitor.Attentive.{witness_follow_new_primary-monitoring}

-- The loop goes on without degraded monitoring.
abbrev pub resumes : WitnessNext → Bool
resumes (stays d effects) = not (is_degraded d.monitoring_state)
resumes (leaves d effects) = false

if_false : {A : Type 0} (t : Bool) (x y : A) → t ≡ false → (if t then x else y) ≡ y
if_false true x y h = cc h
if_false false x y h = refl

module _ (settings : MonitorSettings) (w : WitnessWorld) where
  sync_records-resumes :
      (d : Daemon) (before : List WitnessEffect)
      → resumes (sync_records settings w d before) ≡ (
          not (is_degraded d.monitoring_state)
          && (not (w.primary_connected && w.sync_due) || serves w.sync_type))
  unfolding sync_records
  sync_records-resumes d before = ground arith

  -- The node records are not due to be copied, or they are copied from a primary.
  abbrev pub in_sync : Bool
  in_sync = not (w.primary_connected && w.sync_due) || serves w.sync_type

  check_local_node-resumes :
      (d : Daemon) (before : List WitnessEffect)
      → resumes (check_local_node settings w d before)
        ≡ (not (is_degraded d.monitoring_state) && in_sync)
  unfolding check_local_node lose_local_node recover_local_node sync_records
  check_local_node-resumes d before = ground arith

  follow_sibling-resumes :
      (d : Daemon) (before : List WitnessEffect) (found : Option NodeInfo)
      → is_degraded d.monitoring_state ≡ true
      → resumes (follow_sibling settings w d before found) ≡ false
  unfolding follow_sibling
  follow_sibling-resumes d before none h = ground (arith, h, check_local_node-resumes d before)
  follow_sibling-resumes d before (some node) h =
      let done : WitnessDone = witness_follow_new_primary w.around d node.node_id in
      ground (
        arith,
        h,
        witness_follow_new_primary-monitoring w.around d node.node_id,
        check_local_node-resumes done.daemon (before ++ map witness_act done.actions),
      )

  abbrev found : Daemon → Option NodeInfo
  found d = find_primary d.local_node_info.node_id w.sibling_peer w.siblings

  -- The primary answers in degraded monitoring, and it is one.
  abbrev pub primary_back : Bool
  primary_back =
      (check_upstream_connection settings.connection_check_type w.degraded_probe).result
      && w.upstream_connected
      && serves w.degraded_type

  witness_degraded-resumes :
      (d : Daemon) (before : List WitnessEffect)
      → is_degraded d.monitoring_state ≡ true
      → resumes (witness_degraded settings w d before) ≡ (primary_back && in_sync)
  unfolding witness_degraded
  witness_degraded-resumes d before h =
      let recovered = record (with_upstream_status d node_status_up) {
        monitoring_state = ms_normal;
      } in
      ground (
        arith,
        h,
        check_local_node-resumes recovered before,
        check_local_node-resumes d before,
        follow_sibling-resumes d before (found d) h,
      )

  witness_state-resumes :
      (d : Daemon) (before : List WitnessEffect) (state : MonitoringState)
      → d.monitoring_state ≡ state
      → is_degraded state ≡ true
      → resumes (witness_state settings w d before state) ≡ (primary_back && in_sync)
  unfolding witness_state
  witness_state-resumes d before ms_degraded e h =
      witness_degraded-resumes d before (ap is_degraded e)
  witness_state-resumes d before ms_normal e h = cc h

  resumes-if :
      (t : Bool) (x y : WitnessNext) (b : Bool)
      → resumes x ≡ b
      → resumes y ≡ b
      → resumes (if t then x else y) ≡ b
  resumes-if true x y b hx hy = hx
  resumes-if false x y b hx hy = hy

  -- A witness's repmgrd in degraded monitoring, with a primary that it does not expect to be up,
  -- goes on without degraded monitoring after a round exactly when the primary that it knows
  -- answers, can be connected to and is a primary, and, if the node records are due to be copied
  -- over a connection that stands, is still a primary then; whether another primary is found and
  -- followed makes no difference to this.
  pub witness_round-resumes_iff :
      (d : Daemon)
      → is_degraded d.monitoring_state ≡ true
      → is_up d.upstream_node_info.node_status ≡ false
      → resumes (witness_round settings w d) ≡ (primary_back && in_sync)
  unfolding witness_round
  witness_round-resumes_iff d degraded not_up =
      let seen = set_upstream_last_seen d.upstream_node_info.node_id ∷ [] in
      let waiting = witness_state-resumes d [] d.monitoring_state refl degraded in
      resumes-if (check_upstream_connection settings.connection_check_type w.probe).result
        (witness_state settings w d seen d.monitoring_state)
        (if is_up d.upstream_node_info.node_status
          then lose_primary settings w d
          else witness_state settings w d [] d.monitoring_state)
        (primary_back && in_sync) (witness_state-resumes d seen d.monitoring_state refl degraded)
        (ap resumes (if_false _ _ _ not_up) ∙ waiting)
