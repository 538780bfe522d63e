-- ===== src/Monitor/Paused.antt =====
-- A standby's repmgrd that is paused.
use repmgr.Base.{
  ◌≡◌, refl, sym, ℤ, Bool, true, false, inl, inr, Bool-cases, List, [], ◌∷◌, All, All-append,
  if◌then◌else◌, arith,
}
use mathlib.Core.Path.{subst}
use repmgr.Nodes.{
  NodeInfo, NodeStatus, node_status_up, node_status_down, node_status_unknown,
  node_status_shutting_down, node_status_unclean_shutdown, node_status_rejected, MonitoringState,
  ms_normal, ms_degraded, unknown_node_id,
}
use repmgr.Failover.World.{Action, notify_follow_primary}
use repmgr.Failover.Steps.{notify_followers}
use repmgr.Monitor.Upstream.{check_upstream_connection}
use repmgr.Monitor.State.{
  Monitor, MonitorSettings, RoundWorld, Effect, act, set_upstream_last_seen, set_local_node_id,
  set_active, set_primary, set_upstream_id, acts, Phase, proceed, to_loop, leave, terminate, Next,
  go_on, restart, terminated, with_status, with_monitoring,
}
use repmgr.Monitor.Lost.{
  is_up, is_primary_type, upstream_down, upstream_recovered, by_status, heed_reconnect,
  lose_upstream, check_upstream, attempt_primary, attempt_other,
}
use repmgr.Monitor.Degraded.{
  look_for_primary, complete_promotion, local_is_primary, monitor_degraded, by_monitoring_state,
  refresh, is_automatic,
}
use repmgr.Monitor.Local.{check_local}
use repmgr.Monitor.Round.{finish, go_through, monitor_round}
use repmgr.Monitor.Tail.{asleep, Passive, Fares, check_local-Fares}

-- The effect is no action of a failover but a notification of the siblings.
abbrev pub is_notification : Action → Bool
is_notification (notify_follow_primary target id) = true
is_notification _ = false

abbrev pub Calm : Effect → Type 0
Calm effect = (elim effect [ act action ↦ is_notification action | _ ↦ true ]) ≡ true

Passive-Calm : (e : Effect) → Passive e → Calm e
Passive-Calm (act action) h = ground arith
Passive-Calm (set_upstream_last_seen id) h = refl
Passive-Calm set_local_node_id h = refl
Passive-Calm (set_active active) h = refl
Passive-Calm set_primary h = refl
Passive-Calm (set_upstream_id id) h = refl

abbrev CalmPhase : Phase → Type 0
CalmPhase (proceed m effects) = All Calm effects
CalmPhase (to_loop m effects) = All Calm effects
CalmPhase (leave m effects) = All Calm effects
CalmPhase (terminate effects) = All Calm effects

CalmPhase-if : (t : Bool) (x y : Phase) → CalmPhase x → CalmPhase y → CalmPhase (if t then x else y)
CalmPhase-if true x y hx hy = hx
CalmPhase-if false x y hx hy = hy

-- All effects of the round are calm.
abbrev pub CalmNext : Next → Type 0
CalmNext (go_on m effects) = All Calm effects
CalmNext (restart m effects) = All Calm effects
CalmNext (terminated effects) = All Calm effects

module _ (settings : MonitorSettings) (w : RoundWorld) (connected : w.local_connected ≡ true)
    (paused : w.paused ≡ true) where
  upstream_down-Calm :
      (m : Monitor) (before : List Effect)
      → All Calm before
      → CalmPhase (upstream_down settings w m before)
  unfolding upstream_down
  upstream_down-Calm m before p = rw (connected, paused) p

  by_status-Calm :
      (m : Monitor) (before : List Effect) (status : NodeStatus)
      → All Calm before
      → CalmPhase (by_status settings w m before status)
  unfolding by_status upstream_recovered
  by_status-Calm m before node_status_up p = CalmPhase-if _ (leave _ before) (to_loop m before) p p
  by_status-Calm m before node_status_down p = upstream_down-Calm m before p
  by_status-Calm m before node_status_unknown p = p
  by_status-Calm m before node_status_shutting_down p = p
  by_status-Calm m before node_status_unclean_shutdown p = p
  by_status-Calm m before node_status_rejected p = p

  heed_reconnect-Calm :
      (m : Monitor) (id : ℤ) → id ≡ unknown_node_id → CalmPhase (heed_reconnect settings w m id)
  unfolding heed_reconnect
  heed_reconnect-Calm m id e =
      subst (λ i. CalmPhase (heed_reconnect settings w m i)) (sym e) (by_status-Calm m [] _ tt)

  lose_upstream-Calm :
      (m : Monitor)
      → (attempt_primary settings w).new_primary_node_id ≡ unknown_node_id
      → CalmPhase (lose_upstream settings w m)
  unfolding lose_upstream
  lose_upstream-Calm m e =
      let first = attempt_primary settings w in
      let other = attempt_other settings w in
      let primary_tried = record (with_status m first.node_status) {
        primary_node_id = first.new_primary_node_id;
      } in
      CalmPhase-if (is_primary_type m.daemon.upstream_node_info.type)
        (heed_reconnect settings w primary_tried first.new_primary_node_id)
        (by_status settings w (with_status m other.node_status) [] other.node_status)
        (heed_reconnect-Calm primary_tried first.new_primary_node_id e)
        (by_status-Calm (with_status m other.node_status) [] other.node_status tt)

  check_upstream-Calm :
      (m : Monitor)
      → (attempt_primary settings w).new_primary_node_id ≡ unknown_node_id
      → CalmPhase (check_upstream settings w m)
  unfolding check_upstream
  check_upstream-Calm m e =
      let stay = proceed m [] in
      let up = is_up m.daemon.upstream_node_info.node_status in
      CalmPhase-if (check_upstream_connection settings.connection_check_type w.probe).result
        (proceed m (set_upstream_last_seen m.daemon.upstream_node_info.node_id ∷ []))
        (if up then lose_upstream settings w m else stay) (refl, tt)
        (CalmPhase-if up (lose_upstream settings w m) stay (lose_upstream-Calm m e) tt)

  look_for_primary-Calm :
      (m : Monitor) (before : List Effect)
      → All Calm before
      → CalmPhase (look_for_primary settings w m before)
  unfolding look_for_primary
  look_for_primary-Calm m before p =
      elim (Bool-cases (is_automatic settings.failover.election.failover)) [
        | inl automatic ↦ rw (automatic, paused) p
        | inr manual ↦ rw manual p
      ]

  notify_followers-Calm :
      (siblings : List NodeInfo) (id : ℤ)
      → All Calm (acts (notify_followers w.cascade.around siblings id))
  unfolding notify_followers
  notify_followers-Calm [] id = tt
  notify_followers-Calm (n ∷ rest) id = elim (Bool-cases (w.cascade.around.notifiable n)) [
    | inl told ↦ rw told (refl, notify_followers-Calm rest id)
    | inr skipped ↦ rw skipped (notify_followers-Calm rest id)
  ]

  complete_promotion-Calm :
      (m : Monitor) (before : List Effect)
      → All Calm before
      → CalmPhase (complete_promotion settings w m before)
  unfolding complete_promotion
  complete_promotion-Calm m before p =
      All-append Calm before _ p (refl, notify_followers-Calm w.former_siblings _)

  local_is_primary-Calm :
      (m : Monitor) (before : List Effect)
      → All Calm before
      → CalmPhase (local_is_primary settings w m before)
  unfolding local_is_primary
  local_is_primary-Calm m before p =
      let fresh = refresh m w.refreshed_record in
      let look = look_for_primary settings w fresh before in
      let gone = leave (with_monitoring fresh ms_normal) before in
      CalmPhase-if _ (complete_promotion settings w m before)
        (if is_primary_type fresh.daemon.local_node_info.type then gone else look)
        (complete_promotion-Calm m before p)
        (CalmPhase-if _ gone look p (look_for_primary-Calm fresh before p))

  monitor_degraded-Calm :
      (m : Monitor) (before : List Effect)
      → All Calm before
      → CalmPhase (monitor_degraded settings w m before)
  unfolding monitor_degraded
  monitor_degraded-Calm m before p =
      let restored = to_loop (with_monitoring (with_status m node_status_up) ms_normal) before in
      let stay = to_loop m before in
      let promoted = local_is_primary settings w m before in
      let look = look_for_primary settings w m before in
      let answers =
        (check_upstream_connection settings.connection_check_type w.degraded_probe).result in
      let lost = if w.local_promoted then promoted else look in
      CalmPhase-if _ (terminate before)
        (if answers then (if w.upstream_connected then restored else stay) else lost) p
        (CalmPhase-if answers (if w.upstream_connected then restored else stay) lost
          (CalmPhase-if w.upstream_connected restored stay p p)
          (CalmPhase-if w.local_promoted promoted look (local_is_primary-Calm m before p)
            (look_for_primary-Calm m before p)))

  by_monitoring_state-Calm :
      (m : Monitor) (before : List Effect) (state : MonitoringState)
      → All Calm before
      → CalmPhase (by_monitoring_state settings w m before state)
  unfolding by_monitoring_state
  by_monitoring_state-Calm m before ms_normal p = p
  by_monitoring_state-Calm m before ms_degraded p = monitor_degraded-Calm m before p

  go_through-Calm : (p : Phase) → CalmPhase p → CalmPhase (go_through settings w p)
  unfolding go_through
  go_through-Calm (proceed m effects) h =
      by_monitoring_state-Calm m effects m.daemon.monitoring_state h
  go_through-Calm (to_loop m effects) h = h
  go_through-Calm (leave m effects) h = h
  go_through-Calm (terminate effects) h = h

  check_local-Calm :
      (m : Monitor) (before : List Effect) → All Calm before → CalmNext (check_local w m before)
  check_local-Calm m before p =
      from (check_local w m before)
        (check_local-Fares w (asleep m) Calm Passive-Calm m before refl p)
    where
      from : (n : Next) → Fares w (asleep m) Calm Passive-Calm n → CalmNext n
      from (go_on m effects) f = f.1
      from (restart m effects) f = f
      from (terminated effects) f = cc f

  finish-Calm : (p : Phase) → CalmPhase p → CalmNext (finish settings w p)
  unfolding finish
  finish-Calm (proceed m effects) h = check_local-Calm m effects h
  finish-Calm (to_loop m effects) h = check_local-Calm m effects h
  finish-Calm (leave m effects) h = h
  finish-Calm (terminate effects) h = h

  -- While repmgrd is paused and connected to the local node, and the attempts to reconnect to the
  -- primary name no new one, a round runs neither the promote nor the follow command and leaves
  -- the WAL receiver and the electoral term alone: of the actions of a failover it only notifies
  -- siblings.
  pub monitor_round-paused :
      (m : Monitor)
      → (attempt_primary settings w).new_primary_node_id ≡ unknown_node_id
      → CalmNext (monitor_round settings w m)
  unfolding monitor_round
  monitor_round-paused m e =
      finish-Calm (go_through settings w (check_upstream settings w m))
        (go_through-Calm (check_upstream settings w m) (check_upstream-Calm m e))
