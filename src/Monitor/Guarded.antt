-- ===== src/Monitor/Guarded.antt =====
-- A primary's repmgrd goes on watching its node.
use repmgr.Base.{
  ◌++◌, ◌≡◌, refl, Bool, true, false, not, ◌&&◌, ◌||◌, inl, inr, Bool-cases, Option, none, some,
  List, [], if◌then◌else◌, arith,
}
use repmgr.Nodes.{
  node_status_up, MonitoringState, ms_normal, ms_degraded, RecoveryType, rectype_standby,
}
use repmgr.Monitor.State.{MonitorSettings}
use repmgr.Monitor.Lost.{is_primary_type, is_up}
use repmgr.Monitor.Local.{is_degraded}
use repmgr.Monitor.Primary.{
  PrimaryMonitor, RecordStatus, record_found, StatusWorld, PrimaryStatus, check_primary_status,
  PrimaryWorld, PrimaryEffect, PrimaryNext, stays, leaves, ends, continue_with, end_round,
  primary_degraded, by_state, attempt_local, lose_local, primary_round, with_local_status,
}

-- The local node is marked as up, so that its loss is noticed, or monitoring is degraded, so that
-- its return is.
abbrev pub guarded : PrimaryMonitor → Bool
guarded m = is_up m.local_node_info.node_status || is_degraded m.monitoring_state

abbrev is_found : RecordStatus → Bool
is_found (record_found node) = true
is_found _ = false

abbrev still_primary : RecordStatus → Bool
still_primary (record_found node) = is_primary_type node.type
still_primary _ = false

abbrev in_recovery : RecoveryType → Bool
in_recovery rectype_standby = true
in_recovery _ = false

-- The node has become a standby, a new primary has its record as that of a primary, and the record
-- cannot be changed or read again.
abbrev pub fails_to_change : StatusWorld → Bool
fails_to_change w =
    in_recovery w.recovery_type
    && w.new_primary_connects
    && still_primary w.record_on_primary
    && not (w.set_succeeds && is_found w.record_again)

abbrev continues : Option Bool → Bool
continues none = false
continues (some continue) = continue

-- The loop is left, or the node is watched.
abbrev pub Guards : PrimaryNext → Type 0
Guards (stays m effects) = guarded m ≡ true
Guards (leaves m effects) = Unit
Guards (ends m effects) = Unit

Guards-if : (t : Bool) (x y : PrimaryNext) → Guards x → Guards y → Guards (if t then x else y)
Guards-if true x y hx hy = hx
Guards-if false x y hx hy = hy

check_primary_status-guarded :
    (was_degraded : Bool) (w : StatusWorld) (m : PrimaryMonitor)
    → (is_up m.local_node_info.node_status || (not was_degraded && is_degraded m.monitoring_state))
      ≡ true
    → fails_to_change w ≡ false
    → continues (check_primary_status was_degraded w m).returned ≡ true
    → guarded (check_primary_status was_degraded w m).monitor ≡ true
unfolding check_primary_status
check_primary_status-guarded was_degraded w m h changed c = ground (arith, h, changed, c)

continue_with-Guards :
    (checked : PrimaryStatus) (before : List PrimaryEffect)
    (later : List PrimaryEffect → PrimaryMonitor → PrimaryNext)
    → (continues checked.returned ≡ true
        → Guards (later (before ++ checked.effects) checked.monitor))
    → Guards (continue_with checked before later)
continue_with-Guards checked before later h = go checked.returned refl
  where
    go :
        (o : Option Bool)
        → checked.returned ≡ o
        → Guards (elim o [
          | none ↦ ends checked.monitor (before ++ checked.effects)
          | some continue ↦
              if continue
              then later (before ++ checked.effects) checked.monitor
              else leaves checked.monitor (before ++ checked.effects)
        ])
    go none e = tt
    go (some true) e = h (rw e refl)
    go (some false) e = tt

-- None of the checks in a round finds a record that it cannot change.
abbrev pub changes_records : PrimaryWorld → Bool
changes_records w =
    not (fails_to_change w.after_reconnect)
    && not (fails_to_change w.after_degraded)
    && not (fails_to_change w.at_end)

module _ (settings : MonitorSettings) (w : PrimaryWorld) (changed : changes_records w ≡ true) where
  end_round-Guards :
      (effects : List PrimaryEffect) (m : PrimaryMonitor)
      → guarded m ≡ true
      → Guards (end_round settings w effects m)
  unfolding end_round
  end_round-Guards effects m h =
      continue_with-Guards (check_primary_status false w.at_end m) effects (λ e m'. stays m' e)
        (check_primary_status-guarded false w.at_end m h (ground (arith, changed)))

  primary_degraded-Guards :
      (m : PrimaryMonitor)
      → is_degraded m.monitoring_state ≡ true
      → Guards (primary_degraded settings w m)
  unfolding primary_degraded
  primary_degraded-Guards m h =
      let back = with_local_status m node_status_up in
      let checked = check_primary_status true w.after_degraded back in
      let later = end_round settings w in
      let reached = continue_with checked [] later in
      let resumes = continue_with-Guards checked [] later (λ c. end_round-Guards _ checked.monitor (
        check_primary_status-guarded true w.after_degraded back refl (ground (arith, changed))
          c)) in
      let waits = end_round-Guards [] m (ground (arith, h)) in
      Guards-if _ (ends m []) (if w.server_available && w.connects then reached else later [] m) tt
        (Guards-if _ reached (later [] m) resumes waits)

  by_state-Guards :
      (m : PrimaryMonitor) (state : MonitoringState)
      → m.monitoring_state ≡ state
      → guarded m ≡ true
      → Guards (by_state settings w m state)
  unfolding by_state
  by_state-Guards m ms_normal e h = end_round-Guards _ m h
  by_state-Guards m ms_degraded e h = primary_degraded-Guards m (rw e refl)

  lose_local-Guards : (m : PrimaryMonitor) → Guards (lose_local settings w m)
  unfolding lose_local
  lose_local-Guards m =
      let tried = with_local_status m (attempt_local settings w).node_status in
      let degraded : PrimaryMonitor = record tried { monitoring_state = ms_degraded } in
      let checked = check_primary_status false w.after_reconnect tried in
      elim (Bool-cases (is_up (attempt_local settings w).node_status)) [
        | inl up ↦ rw up (
            continue_with-Guards checked _ (end_round settings w) (λ c.
              end_round-Guards _ checked.monitor (
                check_primary_status-guarded false w.after_reconnect tried (ground (arith, up))
                  (ground (arith, changed)) c)))
        | inr down ↦ rw down (primary_degraded-Guards degraded refl)
      ]

  -- Where a primary's repmgrd that watches its node goes on to another round, it still watches it:
  -- the node is marked as up, or monitoring is degraded. This holds whatever the answers of the
  -- round are, unless the node has become a standby that a new primary still has on record as a
  -- primary, and that record cannot be changed or read again.
  pub primary_round-Guards :
      (m : PrimaryMonitor) → guarded m ≡ true → Guards (primary_round settings w m)
  unfolding primary_round
  primary_round-Guards m h =
      Guards-if _ (lose_local settings w m) (by_state settings w m m.monitoring_state)
        (lose_local-Guards m) (by_state-Guards m m.monitoring_state refl h)
