-- ===== src/Failover/Promotion.antt =====
-- When `promote_self` reports success, and when the program ends within it.
use repmgr.Base.{◌==ℤ◌, Bool, true, false, Option, none, some, List, [], ◌∷◌, if◌then◌else◌}
use repmgr.Nodes.{NodeInfo, unknown_node_id}
use repmgr.Failover.World.{Settings, Surroundings, Action, increment_current_term}

-- The failed primary's record is known, or `always_promote` does without it.
abbrev is_found : Option NodeInfo → Bool
is_found none = false
is_found (some node) = true

abbrev pub promotable : Settings → Surroundings → NodeInfo → Bool
promotable settings around local =
    if local.upstream_node_id ==ℤ unknown_node_id
    then settings.always_promote
    else is_found (around.node_record local.upstream_node_id)

-- Some action increments the electoral term.
abbrev pub increments : List Action → Bool
increments [] = false
increments (increment_current_term ∷ rest) = true
increments (_ ∷ rest) = increments rest
