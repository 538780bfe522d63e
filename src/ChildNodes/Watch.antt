-- ===== src/ChildNodes/Watch.antt =====
-- `check_primary_child_nodes`: the records of the database are compared with the local list of
-- child nodes, which is brought up to date. `none` is an access to a record that has been freed.
use repmgr.Base.{
  ℕ, ℤ, ◌==ℤ◌, Bool, true, false, not, ◌&&◌, ◌||◌, Option, none, some, List, [], ◌∷◌, ◌++◌, map,
  if◌then◌else◌,
}
use repmgr.Nodes.{NodeAttached, is_witness}
use repmgr.ChildNodes.Records.{ChildRecord, ChildNode, ChildList, append_child_node_record}
use repmgr.ChildNodes.Command.{ChildSettings, Reaction, execute_child_nodes_disconnect_command}

-- What `check_witness_attached` finds: no connection, or the upstream node ID of the witness.
unfoldable pub check_witness_attached :
    ℤ → (ChildRecord → Option ℤ) → Bool → ChildRecord → NodeAttached
check_witness_attached local_id upstream startup child = elim (upstream child) [
  | none ↦ if startup then NodeAttached.node_attached_unknown else NodeAttached.node_detached
  | some id ↦ if id ==ℤ local_id then NodeAttached.node_attached else NodeAttached.node_detached
]

-- The record of the database as the check sees it.
unfoldable pub as_checked : ℤ → (ChildRecord → Option ℤ) → ChildRecord → ChildRecord
unfolding check_witness_attached
as_checked local_id upstream child = record {
  node_id = child.node_id;
  type = child.type;
  attached =
      if is_witness child.type
      then check_witness_attached local_id upstream false child
      else child.attached;
}

-- What is done about a node that is already in the local list.
pub data Change : Type 0 where
  keep detach reattach attach_new : Change

abbrev pub change_of : NodeAttached → NodeAttached → Change
change_of NodeAttached.node_attached NodeAttached.node_detached = detach
change_of NodeAttached.node_detached NodeAttached.node_attached = reattach
change_of NodeAttached.node_attached_unknown NodeAttached.node_attached = attach_new
change_of _ _ = keep

abbrev pub update : Change → ℕ → ChildNode → ChildNode
update keep now node = node
update detach now node = record {
  node_id = node.node_id;
  type = node.type;
  attached = NodeAttached.node_detached;
  detached_time = now;
}
update reattach now node = record {
  node_id = node.node_id;
  type = node.type;
  attached = NodeAttached.node_attached;
  detached_time = 0;
}
update attach_new now node = record {
  node_id = node.node_id;
  type = node.type;
  attached = NodeAttached.node_attached;
  detached_time = node.detached_time;
}

-- The local list, and the nodes for which an event is due.
pub record Comparison : Type 0 where
  pub local : ChildList
  pub disconnected : List ℤ
  pub reconnected : List ℤ
  pub new : List ℤ

-- The first local record with the ID.
abbrev pub find_child : ℤ → List ChildNode → Option ChildNode
find_child id [] = none
find_child id (node ∷ rest) =
    let later = find_child id rest in if node.node_id ==ℤ id then some node else later

-- The same list with that record changed in place.
abbrev pub change_child : ℤ → Change → ℕ → List ChildNode → List ChildNode
change_child id change now [] = []
change_child id change now (node ∷ rest) =
    let later = change_child id change now rest in
    if node.node_id ==ℤ id then update change now node ∷ rest else node ∷ later

abbrev pub if_detach : Change → ℤ → List ℤ
if_detach detach id = id ∷ []
if_detach _ id = []

abbrev pub if_reattach : Change → ℤ → List ℤ
if_reattach reattach id = id ∷ []
if_reattach _ id = []

abbrev pub if_attach_new : Change → ℤ → List ℤ
if_attach_new attach_new id = id ∷ []
if_attach_new _ id = []

abbrev pub change_known : ℕ → ℤ → Change → Comparison → Comparison
change_known now id change so_far =
    let list : ChildList = so_far.local in
    record {
      local = record {
        nodes = change_child id change now list.nodes;
        tail = list.tail;
        node_count = list.node_count;
      };
      disconnected = so_far.disconnected ++ if_detach change id;
      reconnected = so_far.reconnected ++ if_reattach change id;
      new = so_far.new ++ if_attach_new change id;
    }

-- A node that is not attached yet is not known to have been attached.
abbrev pub initial_state : NodeAttached → NodeAttached
initial_state NodeAttached.node_detached = NodeAttached.node_attached_unknown
initial_state attached = attached

abbrev pub fresh_node : ChildRecord → ChildNode
fresh_node child = record {
  node_id = child.node_id;
  type = child.type;
  attached = initial_state child.attached;
  detached_time = 0;
}

abbrev pub with_new : ℤ → Comparison → ChildList → Comparison
with_new id so_far list = record {
  local = list;
  disconnected = so_far.disconnected;
  reconnected = so_far.reconnected;
  new = so_far.new ++ id ∷ [];
}

-- One record of the database.
unfoldable pub compare_child : ℕ → ChildRecord → Comparison → Option Comparison
unfolding append_child_node_record
compare_child now child so_far = elim (find_child child.node_id so_far.local.nodes) [
  | some node ↦
      some (change_known now child.node_id (change_of node.attached child.attached) so_far)
  | none ↦ elim (append_child_node_record so_far.local (fresh_node child)) [
    | none ↦ none
    | some list ↦ some (with_new child.node_id so_far list)
  ]
]

unfoldable pub compare_children : ℕ → List ChildRecord → Comparison → Option Comparison
unfolding compare_child
compare_children now [] so_far = some so_far
compare_children now (child ∷ rest) so_far = elim (compare_child now child so_far) [
  | none ↦ none
  | some so_far' ↦ compare_children now rest so_far'
]

abbrev pub registered : ℤ → List ChildRecord → Bool
registered id [] = false
registered id (child ∷ rest) = (child.node_id ==ℤ id) || registered id rest

-- The loop over the local list, which goes on from a record that it has removed by reading
-- the `next` of that record. `found` is `db_node_rec_found`, which the loop does not reset.
unfoldable pub all_found : List ChildRecord → Bool → List ChildNode → Bool
all_found children found [] = true
all_found children found (node ∷ rest) =
    let found' = found || registered node.node_id children in
    let later = all_found children found' rest in if found' then later else false

abbrev pub no_events : ChildList → Comparison
no_events list = record { local = list; disconnected = []; reconnected = []; new = [] }

-- The events and the reaction of one check.
pub record Watched : Type 0 where
  pub comparison : Comparison
  pub reaction : Reaction

abbrev pub unwatched : ChildList → Bool → Watched
unwatched list executed = record {
  comparison = no_events list;
  reaction = record { ran_command = false; command_executed = executed };
}

module _ (settings : ChildSettings) (has_command paused : Bool) (now : ℕ) where
  unfoldable pub conclude_watch : List ChildRecord → Bool → Comparison → Option Watched
  unfolding all_found execute_child_nodes_disconnect_command
  conclude_watch children executed compared =
      if all_found children false compared.local.nodes
      then some (record {
        comparison = compared;
        reaction =
            if has_command && not paused
            then execute_child_nodes_disconnect_command settings now children compared.local.nodes
                executed
            else record { ran_command = false; command_executed = executed };
      })
      else none

  -- `children` is the result of `get_child_nodes`, `none` when the query fails.
  unfoldable pub check_primary_child_nodes :
      ℤ → (ChildRecord → Option ℤ) → Option (List ChildRecord) → ChildList → Bool → Option Watched
  unfolding as_checked compare_children conclude_watch
  check_primary_child_nodes local_id upstream none local executed = some (unwatched local executed)
  check_primary_child_nodes local_id upstream (some []) local executed =
      some (unwatched local executed)
  check_primary_child_nodes local_id upstream (some (child ∷ rest)) local executed =
      let children = map (as_checked local_id upstream) (child ∷ rest) in
      elim (compare_children now children (no_events local)) [
        | none ↦ none
        | some compared ↦ conclude_watch children executed compared
      ]
