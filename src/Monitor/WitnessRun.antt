-- ===== src/Monitor/WitnessRun.antt =====
-- `monitor_streaming_witness` from its start, over any number of rounds.
use repmgr.Base.{
  ◌≡◌, refl, ◌++◌, Bool, true, false, Option, none, some, List, [], ◌∷◌, if◌then◌else◌,
}
use repmgr.Nodes.{NodeInfo, node_status_up, node_status_down, ms_normal, ms_degraded}
use repmgr.Election.Siblings.{Daemon}
use repmgr.Failover.Witness.{copy_node_records}
use repmgr.Monitor.State.{MonitorSettings}
use repmgr.Monitor.Witness.{
  WitnessWorld, WitnessEffect, witness_act, WitnessNext, stays, leaves, with_upstream_status,
  witness_round,
}
use repmgr.Monitor.Attentive.{attends, Attends, witness_round-Attends}

-- The answers at the start: whether a primary is found, its record there, and the record of the
-- last known primary.
pub record WitnessStart : Type 0 where
  pub primary_connects : Bool
  pub primary_record : Option NodeInfo
  pub last_known_record : Option NodeInfo

abbrev pub refresh_upstream : Daemon → Option NodeInfo → Daemon
refresh_upstream d none = d
refresh_upstream d (some node) = record d { upstream_node_info = node }

-- Without a record of a primary repmgrd terminates, which is the result `none`; the votes are reset
-- first of all.
unfoldable pub start_degraded : Daemon → Option NodeInfo → Option Daemon
start_degraded d none = none
start_degraded d (some node) = some (
    with_upstream_status (record d { upstream_node_info = node; monitoring_state = ms_degraded })
      node_status_down)

unfoldable pub start_witness : WitnessStart → Daemon → Option Daemon × List WitnessEffect
unfolding start_degraded
start_witness w d =
    let reset = record d { voting_reset = true } in
    let found = refresh_upstream reset w.primary_record in
    if w.primary_connects
    then (
      some (with_upstream_status (record found { monitoring_state = ms_normal }) node_status_up),
      witness_act copy_node_records ∷ [],
    )
    else (start_degraded reset w.last_known_record, [])

abbrev pub go_on_from : List WitnessEffect → WitnessNext → WitnessNext
go_on_from before (stays d effects) = stays d (before ++ effects)
go_on_from before (leaves d effects) = leaves d (before ++ effects)

-- The rounds after one that has ended in `next`.
abbrev pub after_round : WitnessNext → (Daemon → WitnessNext) → WitnessNext
after_round (stays d effects) later = go_on_from effects (later d)
after_round (leaves d effects) later = leaves d effects

-- The rounds until the function returns, or as many as there are answers for.
unfoldable pub witness_run : MonitorSettings → List WitnessWorld → Daemon → WitnessNext
unfolding witness_round
witness_run settings [] d = stays d []
witness_run settings (w ∷ rest) d =
    after_round (witness_round settings w d) (λ d'. witness_run settings rest d')

abbrev pub run_from :
    MonitorSettings → List WitnessWorld → Option Daemon → List WitnessEffect → Option WitnessNext
run_from settings worlds none before = none
run_from settings worlds (some d) before = some (go_on_from before (witness_run settings worlds d))

-- `none` when repmgrd terminates at the start.
unfoldable pub monitor_streaming_witness :
    MonitorSettings → WitnessStart → List WitnessWorld → Daemon → Option WitnessNext
unfolding start_witness witness_run
monitor_streaming_witness settings start worlds d =
    let (started, effects) = start_witness start d in run_from settings worlds started effects

-- repmgrd has terminated or restarted monitoring, or it attends to the primary.
abbrev pub AttendsAll : Option WitnessNext → Type 0
AttendsAll none = Unit
AttendsAll (some next) = Attends next

go_on_from-Attends :
    (before : List WitnessEffect) (next : WitnessNext)
    → Attends next
    → Attends (go_on_from before next)
go_on_from-Attends before (stays d effects) h = h
go_on_from-Attends before (leaves d effects) h = h

after_round-Attends :
    (next : WitnessNext) (later : Daemon → WitnessNext)
    → Attends next
    → ((d : Daemon) → attends d ≡ true → Attends (later d))
    → Attends (after_round next later)
after_round-Attends (stays d effects) later h k = go_on_from-Attends effects (later d) (k d h)
after_round-Attends (leaves d effects) later h k = tt

module _ (settings : MonitorSettings) where
  witness_run-Attends :
      (worlds : List WitnessWorld) (d : Daemon)
      → attends d ≡ true
      → Attends (witness_run settings worlds d)
  unfolding witness_run
  witness_run-Attends [] d h = h
  witness_run-Attends (w ∷ rest) d h =
      after_round-Attends (witness_round settings w d) (λ d'. witness_run settings rest d')
        (witness_round-Attends settings w d h) (witness_run-Attends rest)

  abbrev StartAttends : Option Daemon → Type 0
  StartAttends none = Unit
  StartAttends (some d) = attends d ≡ true

  start_degraded-attends : (d : Daemon) (o : Option NodeInfo) → StartAttends (start_degraded d o)
  unfolding start_degraded
  start_degraded-attends d none = tt
  start_degraded-attends d (some node) = refl

  run_from-Attends :
      (worlds : List WitnessWorld) (o : Option Daemon) (before : List WitnessEffect)
      → StartAttends o
      → AttendsAll (run_from settings worlds o before)
  run_from-Attends worlds none before h = tt
  run_from-Attends worlds (some d) before h =
      go_on_from-Attends before (witness_run settings worlds d) (witness_run-Attends worlds d h)

  run_from-cases :
      (worlds : List WitnessWorld) (b : Bool) (x y : Option Daemon × List WitnessEffect)
      → StartAttends x.0
      → StartAttends y.0
      → AttendsAll (run_from settings worlds (if b then x else y).0 (if b then x else y).1)
  run_from-cases worlds true x y hx hy = run_from-Attends worlds x.0 x.1 hx
  run_from-cases worlds false x y hx hy = run_from-Attends worlds y.0 y.1 hy

  -- Whatever a witness's repmgrd meets at its start and in any number of rounds, it terminates, or
  -- restarts monitoring, or expects the primary to be up or is in degraded monitoring; so it is
  -- never in a state in which a loss of the primary would go unnoticed and no primary would be
  -- looked for.
  pub monitor_streaming_witness-Attends :
      (start : WitnessStart) (worlds : List WitnessWorld) (d : Daemon)
      → AttendsAll (monitor_streaming_witness settings start worlds d)
  unfolding monitor_streaming_witness start_witness
  monitor_streaming_witness-Attends start worlds d =
      run_from-cases worlds start.primary_connects _ _ refl
        (start_degraded-attends (record d { voting_reset = true }) start.last_known_record)
