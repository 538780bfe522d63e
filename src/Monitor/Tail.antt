-- ===== src/Monitor/Tail.antt =====
-- What the part of a round that looks at the local node leaves alone: the upstream's status, the
-- monitoring state, and the actions of a failover.
use repmgr.Base.{
  ◌==ℤ◌, ◌≡◌, refl, Bool, true, false, not, ◌&&◌, Option, none, some, List, [], ◌∷◌, ◌++◌, All,
  All-append, if◌then◌else◌, arith,
}
use repmgr.Nodes.{ms_normal, NodeInfo, unknown_node_id}
use repmgr.Monitor.State.{
  Monitor, RoundWorld, Effect, act, set_local_node_id, set_active, Next, go_on, restart, terminated,
  with_upstream_id,
}
use repmgr.Monitor.Lost.{is_up}
use repmgr.Monitor.Degraded.{refresh}
use repmgr.Monitor.Local.{
  is_degraded, confirm_upstream, finish_round, local_lost, local_found, local_recovered,
  check_local, mark_active, is_standby_type, upstream_changed,
}

abbrev pub asleep : Monitor → Bool
asleep m =
    not (is_up m.daemon.upstream_node_info.node_status)
    && not (is_degraded m.daemon.monitoring_state)

-- The effect is no action of a failover.
abbrev pub Passive : Effect → Type 0
Passive effect = (elim effect [ act action ↦ false | _ ↦ true ]) ≡ true

module _ (w : RoundWorld) (b : Bool) (Q : Effect → Type 0)
    (passive : (e : Effect) → Passive e → Q e) where
  -- The round goes on, asleep or not as `b` says, or monitoring is restarted; the effects are as
  -- `Q` says.
  abbrev pub Fares : Next → Type 0
  Fares (go_on m effects) = (asleep m ≡ b) × All Q effects
  Fares (restart m effects) = All Q effects
  Fares (terminated effects) = false ≡ true

  Fares-if : (t : Bool) (x y : Next) → Fares x → Fares y → Fares (if t then x else y)
  Fares-if true x y hx hy = hx
  Fares-if false x y hx hy = hy

  asleep-refresh : (m : Monitor) (o : Option NodeInfo) → asleep m ≡ b → asleep (refresh m o) ≡ b
  asleep-refresh m none h = h
  asleep-refresh m (some local) h = h

  confirm_upstream-Fares :
      (m : Monitor) (before : List Effect)
      → asleep m ≡ b
      → All Q before
      → Fares (confirm_upstream w m before)
  unfolding confirm_upstream
  confirm_upstream-Fares m before h p = ground arith

  finish_round-Fares :
      (m : Monitor) (before : List Effect)
      → asleep m ≡ b
      → All Q before
      → Fares (finish_round w m before)
  unfolding finish_round
  finish_round-Fares m before h p =
      let h' = asleep-refresh m w.final_record h in
      let stays : Fares (go_on (refresh m w.final_record) before) = (h', p) in
      Fares-if _ _ (go_on (refresh m w.final_record) before)
        (confirm_upstream-Fares (refresh m w.final_record) before h' p) stays

  with_effect :
      (before : List Effect) (e : Effect) → All Q before → Passive e → All Q (before ++ e ∷ [])
  with_effect before e p q = All-append Q before (e ∷ []) p (passive e q, tt)

  All-if : (t : Bool) (xs ys : List Effect) → All Q xs → All Q ys → All Q (if t then xs else ys)
  All-if true xs ys hx hy = hx
  All-if false xs ys hx hy = hy

  local_lost-Fares :
      (m : Monitor) (before : List Effect)
      → asleep m ≡ b
      → All Q before
      → Fares (local_lost w m before)
  unfolding local_lost
  local_lost-Fares m before h p =
      Fares-if _ _ _
        (finish_round-Fares _ _ h (
          All-append Q before _ p (
            All-if w.primary_connected (set_active false ∷ []) []
              (passive (set_active false) refl, tt) tt)))
        (finish_round-Fares _ before h p)

  local_found-Fares :
      (m : Monitor) (before : List Effect)
      → asleep m ≡ b
      → All Q before
      → Fares (local_found w m before)
  unfolding local_found
  local_found-Fares m before h p =
      let reset = w.stored_local_node_id ==ℤ unknown_node_id in
      let effects = if reset then before ++ set_local_node_id ∷ [] else before in
      let p' : All Q effects =
        All-if reset (before ++ set_local_node_id ∷ []) before
          (with_effect before set_local_node_id p refl) p in
      let marked = mark_active m true in
      let active = effects ++ set_active true ∷ [] in
      let stays = finish_round-Fares m effects h p' in
      let marks =
        finish_round-Fares marked active h (with_effect effects (set_active true) p' refl) in
      let stay = finish_round w m effects in
      let written = if w.set_active_succeeds then finish_round w marked active else stay in
      let gone = restart (with_upstream_id m unknown_node_id) effects in
      let inactive = not m.daemon.local_node_info.active && w.primary_connected in
      let active_again =
        Fares-if inactive written stay (Fares-if w.set_active_succeeds _ stay marks stays) stays in
      Fares-if (w.primary_connected && w.primary_in_recovery) gone
        (if inactive then written else stay) p' active_again

  local_recovered-Fares :
      (m : Monitor) (before : List Effect)
      → asleep m ≡ b
      → All Q before
      → Fares (local_recovered w m before)
  unfolding local_recovered
  local_recovered-Fares m before h p =
      let m' = record m { local_monitoring_state = ms_normal } in
      let h' = asleep-refresh m' w.recovered_record h in
      let fresh = refresh m' w.recovered_record in
      let found = local_found-Fares fresh before h' p in
      let moved = not (is_standby_type fresh.daemon.local_node_info.type) in
      let typed = Fares-if moved (restart fresh before) (local_found w fresh before) p found in
      Fares-if (upstream_changed fresh) (restart fresh before)
        (if moved then restart fresh before else local_found w fresh before) p typed

  pub check_local-Fares :
      (m : Monitor) (before : List Effect)
      → asleep m ≡ b
      → All Q before
      → Fares (check_local w m before)
  unfolding check_local
  check_local-Fares m before h p =
      let back = is_degraded m.local_monitoring_state in
      let reached =
        Fares-if back (local_recovered w m before) (local_found w m before)
          (local_recovered-Fares m before h p) (local_found-Fares m before h p) in
      Fares-if (not w.local_reconnected) (local_lost w m before)
        (if back then local_recovered w m before else local_found w m before)
        (local_lost-Fares m before h p) reached
