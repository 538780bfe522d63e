-- ===== src/Examples/Children.antt =====
-- The watch over child nodes at concrete inputs.
use repmgr.Base.{
  map, ℕ, ◌+◌, ◌*◌, ◌^◌, ◌≤◌, ◌≡◌, refl, ◌↔◌, ℤ, pos, negsuc, true, false, Option, none, some, List,
  [], ◌∷◌, All,
}
use repmgr.Nodes.{standby, NodeAttached, node_attached, node_detached}
use repmgr.ChildNodes.Records.{
  ChildRecord, ChildNode, last_record, ChildList, append_child_node_record,
}
use repmgr.ChildNodes.Command.{ChildSettings, execute_child_nodes_disconnect_command}
use repmgr.ChildNodes.Shortage.{Check, runs, recoveries, one_if, runs-le-recoveries}
use repmgr.ChildNodes.Watch.{compare_children, no_events, Watched, check_primary_child_nodes}
use repmgr.ChildNodes.Tracking.{ids}
use repmgr.ChildNodes.Vanished.{first_vanished, watch, check_primary_child_nodes-freed_iff}
use repmgr.ChildNodes.Status.{Agrees, compare_children-Agrees}
use repmgr.ChildNodes.Watch.{Comparison}
use repmgr.ChildNodes.Startup.{first_child_nodes, first_child_nodes-events, seen, lost, gained}

abbrev child_record : ℕ → NodeAttached → ChildRecord
child_record n state = record { node_id = pos n; type = standby; attached = state }

abbrev child_node : ℕ → NodeAttached → ℕ → ChildNode
child_node n state time = record {
  node_id = pos n;
  type = standby;
  attached = state;
  detached_time = time;
}

abbrev two_nodes : ChildList
two_nodes = record {
  nodes = child_node 2 node_attached 0 ∷ child_node 3 node_attached 0 ∷ [];
  tail = last_record;
  node_count = 2;
}

abbrev settings : ChildSettings
settings = record {
  child_nodes_connected_min_count = pos 2;
  child_nodes_disconnect_min_count = negsuc 0;
  child_nodes_disconnect_timeout = pos 30;
  child_nodes_connected_include_witness = false;
}

abbrev one_left : List ChildRecord
one_left = child_record 2 node_attached ∷ child_record 3 node_detached ∷ []

-- Node 3 has been detached for a minute at time 100 s.
abbrev one_detached : List ChildNode
one_detached = child_node 2 node_attached 0 ∷ child_node 3 node_detached (40 * 10 ^ 9) ∷ []

command_runs :
    (execute_child_nodes_disconnect_command settings
      (100 * 10 ^ 9)
      one_left
      one_detached
      false).ran_command
    ≡ true
unfolding execute_child_nodes_disconnect_command
command_runs = refl

abbrev shortage : Check
shortage = record { now = 100 * 10 ^ 9; children = one_left; local = one_detached }

runs-le-recoveries_example :
    runs settings false (shortage ∷ shortage ∷ []) + one_if false
    ≤ recoveries settings (shortage ∷ shortage ∷ []) + 1
runs-le-recoveries_example = runs-le-recoveries settings false (shortage ∷ shortage ∷ [])

abbrev no_witness : ChildRecord → Option ℤ
no_witness child = none

check_primary_child_nodes-freed_iff_example :
    (watch settings true false 7
        (pos 1)
        no_witness
        (child_record 3 node_attached ∷ [])
        two_nodes
        false
      ≡ none)
    ↔ (first_vanished (child_record 3 node_attached ∷ []) (ids two_nodes.nodes) ≡ true)
check_primary_child_nodes-freed_iff_example =
    check_primary_child_nodes-freed_iff settings true false 7 (pos 1) no_witness
      (child_record 3 node_attached ∷ []) two_nodes false (refl, refl)

vanished_runs :
    watch settings true false 7
      (pos 1)
      no_witness
      (child_record 3 node_attached ∷ [])
      two_nodes
      false
    ≡ none
unfolding check_primary_child_nodes
vanished_runs = refl

-- Node 3 has gone, and node 4 is new.
abbrev four_new : List ChildRecord
four_new = child_record 2 node_attached ∷ child_record 4 node_attached ∷ []

abbrev after_four : Watched
after_four = record {
  comparison = record {
    local = record {
      nodes =
          child_node 2 node_attached 0
          ∷ child_node 3 node_attached 0
          ∷ child_node 4 node_attached 0
          ∷ [];
      tail = last_record;
      node_count = 3;
    };
    disconnected = [];
    reconnected = [];
    new = pos 4 ∷ [];
  };
  reaction = record { ran_command = false; command_executed = false };
}

four_runs :
    watch settings true false 7 (pos 1) no_witness four_new two_nodes false ≡ some after_four
unfolding check_primary_child_nodes
four_runs = refl

four_compared : compare_children 7 four_new (no_events two_nodes) ≡ some after_four.comparison
unfolding compare_children
four_compared = refl

compare_children-Agrees_example : All (Agrees after_four.comparison.local.nodes) four_new
compare_children-Agrees_example =
    compare_children-Agrees 7 four_new (no_events two_nodes) after_four.comparison (refl, refl)
      (refl, (refl, tt)) (refl, (refl, tt)) (refl, (refl, tt)) four_compared

-- Node 2 is attached at the start, node 3 is not.
first_list :
    first_child_nodes (some one_left)
    ≡ some (record {
      nodes = child_node 2 node_attached 0 ∷ child_node 3 NodeAttached.node_attached_unknown 0 ∷ [];
      tail = last_record;
      node_count = 2;
    })
unfolding first_child_nodes append_child_node_record
first_list = refl

abbrev swapped : ChildRecord → NodeAttached
swapped child = elim child.attached [ node_attached ↦ node_detached | _ ↦ node_attached ]

abbrev one_away : List ChildRecord
one_away = child_record 2 node_attached ∷ child_record 4 node_detached ∷ []

first_child_nodes-events_example :
    (list : ChildList) × (compared : Comparison) × (first_child_nodes (some one_away) ≡ some list)
    × (compare_children 7 (map (seen swapped) one_away) (no_events list) ≡ some compared)
    × (compared.disconnected ≡ lost swapped one_away)
    × (compared.reconnected ≡ [])
    × (compared.new ≡ gained swapped one_away)
first_child_nodes-events_example = first_child_nodes-events one_away swapped 7 (refl, (refl, tt))
