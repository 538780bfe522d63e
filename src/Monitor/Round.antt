-- ===== src/Monitor/Round.antt =====
-- One round of the loop of `monitor_streaming_standby`, and a run of it.
use repmgr.Base.{List, [], ◌∷◌, ◌++◌}
use repmgr.Monitor.State.{
  Monitor, MonitorSettings, RoundWorld, Effect, Phase, proceed, to_loop, leave, terminate, Next,
  go_on, restart, terminated,
}
use repmgr.Monitor.Lost.{check_upstream}
use repmgr.Monitor.Degraded.{by_monitoring_state}
use repmgr.Monitor.Local.{check_local}

module _ (settings : MonitorSettings) (w : RoundWorld) where
  -- After the part in degraded monitoring.
  unfoldable pub finish : Phase → Next
  unfolding check_local
  finish (proceed m effects) = check_local w m effects
  finish (to_loop m effects) = check_local w m effects
  finish (leave m effects) = restart m effects
  finish (terminate effects) = terminated effects

  -- After the check of the upstream.
  unfoldable pub go_through : Phase → Phase
  unfolding by_monitoring_state
  go_through (proceed m effects) =
      by_monitoring_state settings w m effects m.daemon.monitoring_state
  go_through phase = phase

  unfoldable pub monitor_round : Monitor → Next
  unfolding finish go_through check_upstream
  monitor_round m = finish (go_through (check_upstream settings w m))

-- The effects of a round that goes on come before those of the next.
abbrev pub after : List Effect → Next → Next
after before (go_on m effects) = go_on m (before ++ effects)
after before (restart m effects) = restart m (before ++ effects)
after before (terminated effects) = terminated (before ++ effects)

abbrev pub continue_run : Next → (Monitor → Next) → Next
continue_run (go_on m effects) later = after effects (later m)
continue_run (restart m effects) later = restart m effects
continue_run (terminated effects) later = terminated effects

-- The rounds of the loop with their answers, until monitoring is restarted or ends.
unfoldable pub monitor_run : MonitorSettings → List RoundWorld → Monitor → Next
monitor_run settings [] m = go_on m []
monitor_run settings (w ∷ rest) m =
    continue_run (monitor_round settings w m) (monitor_run settings rest)
