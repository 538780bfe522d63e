-- ===== src/ChildNodes/Command.antt =====
-- `execute_child_nodes_disconnect_command`: whether too few child nodes are connected, and
-- whether to run "child_nodes_disconnect_command" for it.
use repmgr.Base.{
  ℕ, ◌+◌, ◌-◌, ◌/◌, ◌^◌, ℤ, pos, negsuc, pos_part, ltb_ℤ, ◌==ℤ◌, difference, Bool, true, false, not,
  ◌&&◌, ◌||◌, List, [], ◌∷◌, length, count, leb, if◌then◌else◌,
}
use repmgr.Nodes.{ServerType, NodeAttached, is_witness, unknown_node_id}
use repmgr.ChildNodes.Records.{ChildRecord, ChildNode}

-- The settings of repmgr.conf.
pub record ChildSettings : Type 0 where
  pub child_nodes_connected_min_count : ℤ
  pub child_nodes_disconnect_min_count : ℤ
  pub child_nodes_disconnect_timeout : ℤ
  pub child_nodes_connected_include_witness : Bool

abbrev pub is_attached : NodeAttached → Bool
is_attached NodeAttached.node_attached = true
is_attached _ = false

abbrev pub is_detached : NodeAttached → Bool
is_detached NodeAttached.node_detached = true
is_detached _ = false

-- A witness server that is not to be counted.
abbrev pub excluded : ChildSettings → ServerType → Bool
excluded settings type = not settings.child_nodes_connected_include_witness && is_witness type

abbrev pub some_witness : List ChildRecord → Bool
some_witness [] = false
some_witness (child ∷ rest) = is_witness child.type || some_witness rest

unfoldable pub min_required_connected_count : ChildSettings → List ChildRecord → ℤ
min_required_connected_count settings children =
    let child_node_count =
      if not settings.child_nodes_connected_include_witness && some_witness children
      then length children - 1
      else length children in
    if ltb_ℤ (pos 0) settings.child_nodes_connected_min_count
    then settings.child_nodes_connected_min_count
    else if ltb_ℤ (pos 0) settings.child_nodes_disconnect_min_count
    then difference (child_node_count + 1) (pos_part settings.child_nodes_disconnect_min_count)
    else pos 1

unfoldable pub connected_count : ChildSettings → List ChildRecord → ℕ
connected_count settings children =
    count (λ child. not (excluded settings child.type) && is_attached child.attached) children

-- The seconds between two times in nanoseconds, truncated as by the cast to int.
abbrev pub seconds_since : ℕ → ℕ → ℤ
seconds_since now time =
    if leb time now then pos ((now - time) / 10 ^ 9) else difference 0 ((time - now) / 10 ^ 9)

pub record Detachment : Type 0 where
  pub below_threshold : Bool
  pub node_id : ℤ
  pub elapsed : ℤ

-- One record of the loop over the local child node records.
abbrev pub note_detached : ChildSettings → ℕ → Detachment → ChildNode → Detachment
note_detached settings now recent child =
    let elapsed = seconds_since now child.detached_time in
    let below = recent.below_threshold || ltb_ℤ elapsed settings.child_nodes_disconnect_timeout in
    if excluded settings child.type
    then recent
    else if not (is_detached child.attached)
    then recent
    else if recent.node_id ==ℤ unknown_node_id || ltb_ℤ elapsed recent.elapsed
    then record { below_threshold = below; node_id = child.node_id; elapsed = elapsed }
    else record { below_threshold = below; node_id = recent.node_id; elapsed = recent.elapsed }

unfoldable pub most_recently_disconnected :
    ChildSettings → ℕ → Detachment → List ChildNode → Detachment
most_recently_disconnected settings now recent [] = recent
most_recently_disconnected settings now recent (child ∷ rest) =
    most_recently_disconnected settings now (note_detached settings now recent child) rest

abbrev pub no_detachment : Detachment
no_detachment = record { below_threshold = false; node_id = unknown_node_id; elapsed = negsuc 0 }

pub record Reaction : Type 0 where
  pub ran_command : Bool
  pub command_executed : Bool

unfoldable pub too_few : ChildSettings → List ChildRecord → Bool
unfolding min_required_connected_count connected_count
too_few settings children =
    ltb_ℤ (pos (connected_count settings children)) (min_required_connected_count settings children)

-- `executed` is the variable `child_nodes_disconnect_command_executed`.
unfoldable pub execute_child_nodes_disconnect_command :
    ChildSettings → ℕ → List ChildRecord → List ChildNode → Bool → Reaction
unfolding too_few most_recently_disconnected
execute_child_nodes_disconnect_command settings now children local executed =
    let recent = most_recently_disconnected settings now no_detachment local in
    if too_few settings children
    then (if executed
        then record { ran_command = false; command_executed = true }
        else if not recent.below_threshold && not (recent.node_id ==ℤ unknown_node_id)
        then record { ran_command = true; command_executed = true }
        else record { ran_command = false; command_executed = false })
    else record { ran_command = false; command_executed = false }
