-- ===== src/ChildNodes/Startup.antt =====
-- The list of child nodes at the start of `monitor_streaming_primary`, and
-- `clear_child_node_info_list`.
use repmgr.Base.{
  ℕ, ℤ, ◌≡◌, refl, sym, ap, ◌∙◌, false, not, ◌&&◌, Option, none, some, List, [], ◌∷◌, ◌++◌, map,
  All, if◌then◌else◌, arith,
}
use mathlib.Core.Path.{subst}
use mathlib.Core.List.{append-nil, append_assoc}
use repmgr.Nodes.{NodeAttached}
use repmgr.ChildNodes.Records.{ChildRecord, ChildNode, no_tail, ChildList, append_child_node_record}
use repmgr.ChildNodes.Command.{is_attached, is_detached}
use repmgr.ChildNodes.Watch.{
  Change, change_of, find_child, change_child, change_known, registered, if_detach, if_reattach,
  if_attach_new, Comparison, no_events, compare_child, compare_children,
}
use repmgr.ChildNodes.Tracking.{WellFormed, append-WellFormed}
use repmgr.ChildNodes.Status.{Distinct, change_child-Keeps}

-- The list without nodes, as it is declared and as `clear_child_node_info_list` leaves it.
abbrev pub empty_list : ChildList
empty_list = record { nodes = []; tail = no_tail; node_count = 0 }

unfoldable pub clear_child_node_info_list : ChildList → ChildList
clear_child_node_info_list list = record { nodes = []; tail = no_tail; node_count = 0 }

-- A node that is not attached at the start may be one that has never been.
abbrev pub first_state : NodeAttached → NodeAttached
first_state NodeAttached.node_attached = NodeAttached.node_attached
first_state _ = NodeAttached.node_attached_unknown

abbrev pub first_node : ChildRecord → ChildNode
first_node child = record {
  node_id = child.node_id;
  type = child.type;
  attached = first_state child.attached;
  detached_time = 0;
}

-- The loop over the records of the query; what `check_witness_attached` finds comes after the node
-- has been appended, and does not get into the list.
unfoldable pub fill : ChildList → List ChildRecord → Option ChildList
fill list [] = some list
fill list (child ∷ rest) = elim (append_child_node_record list (first_node child)) [
  | none ↦ none
  | some list' ↦ fill list' rest
]

-- The list at the start; `none` is a failed query.
unfoldable pub first_child_nodes : Option (List ChildRecord) → Option ChildList
unfolding fill
first_child_nodes none = some empty_list
first_child_nodes (some records) = fill empty_list records

-- The list is filled without a write to a freed record, with a node for each record in order.
fill-nodes :
    (records : List ChildRecord) (list : ChildList)
    → WellFormed list
    → (list' : ChildList) × (fill list records ≡ some list')
      × (list'.nodes ≡ list.nodes ++ map first_node records)
unfolding fill
fill-nodes [] list formed = (list, refl, sym (append-nil list.nodes))
fill-nodes (child ∷ rest) list formed =
    let (next, appended, formed', nodes') = append-WellFormed list (first_node child) formed in
    let (last, filled, nodes'') = fill-nodes rest next formed' in
    (
      last,
      rw (appended, fill) filled,
      nodes''
          ∙ ap (λ l. l ++ map first_node rest) nodes'
          ∙ append_assoc list.nodes (first_node child ∷ []) (map first_node rest),
    )

-- The list has the child as it is at the start.
abbrev Known : List ChildNode → ChildRecord → Type 0
Known nodes child =
    (node : ChildNode) × (find_child child.node_id nodes ≡ some node)
    × (node.attached ≡ first_state child.attached)

Known-cons :
    (first : ChildRecord) (nodes : List ChildNode) (children : List ChildRecord)
    → registered first.node_id children ≡ false
    → All (Known nodes) children
    → All (Known (first_node first ∷ nodes)) children
Known-cons first nodes [] apart known = tt
Known-cons first nodes (child ∷ rest) apart ((node, found, same), known) = (
  (node, ground (arith, found, apart), same),
  Known-cons first nodes rest (ground (arith, apart)) known,
)

Known-first_node :
    (records : List ChildRecord) → Distinct records → All (Known (map first_node records)) records
Known-first_node [] distinct = tt
Known-first_node (child ∷ rest) distinct = (
  (first_node child, ground arith, refl),
  Known-cons child (map first_node rest) rest distinct.0 (Known-first_node rest distinct.1),
)

Known-change_child :
    (id : ℤ) (change : Change) (now : ℕ) (nodes : List ChildNode) (children : List ChildRecord)
    → registered id children ≡ false
    → All (Known nodes) children
    → All (Known (change_child id change now nodes)) children
Known-change_child id change now nodes [] apart known = tt
Known-change_child id change now nodes (child ∷ rest) apart ((node, found, same), known) = (
  (
    node,
    change_child-Keeps id change now nodes child.node_id node (ground (arith, apart)) found,
    same,
  ),
  Known-change_child id change now nodes rest (ground (arith, apart)) known,
)

-- The record of a later query, with the state that it has then.
abbrev pub seen : (ChildRecord → NodeAttached) → ChildRecord → ChildRecord
seen later child = record child { attached = later child }

-- The children that were attached at the start and are detached later.
abbrev pub lost : (ChildRecord → NodeAttached) → List ChildRecord → List ℤ
lost later [] = []
lost later (child ∷ rest) =
    let others = lost later rest in
    if is_attached child.attached && is_detached (later child)
    then child.node_id ∷ others
    else others

-- The children that were not attached at the start and are attached later.
abbrev pub gained : (ChildRecord → NodeAttached) → List ChildRecord → List ℤ
gained later [] = []
gained later (child ∷ rest) =
    let others = gained later rest in
    if not (is_attached child.attached) && is_attached (later child)
    then child.node_id ∷ others
    else others

events :
    (before after : NodeAttached) (id : ℤ) (others : List ℤ)
    → let change = change_of (first_state before) after in
      (if_detach change id ++ others
        ≡ (if is_attached before && is_detached after then id ∷ others else others))
      × (if_reattach change id ≡ [])
      × (if_attach_new change id ++ others
          ≡ (if not (is_attached before) && is_attached after then id ∷ others else others))
events before after id others = ground arith

compare_child-Known :
    (now : ℕ) (later : ChildRecord → NodeAttached) (child : ChildRecord) (so_far : Comparison)
    → Known so_far.local.nodes child
    → compare_child now (seen later child) so_far
      ≡ some (
          change_known now child.node_id
            (change_of (first_state child.attached) (later child))
            so_far)
unfolding compare_child
compare_child-Known now later child so_far (node, found, same) =
    rw (found, compare_child, same) refl

compare_children-events :
    (now : ℕ) (later : ChildRecord → NodeAttached) (children : List ChildRecord)
    (so_far : Comparison)
    → Distinct children
    → All (Known so_far.local.nodes) children
    → (compared : Comparison) × (compare_children now (map (seen later) children) so_far
        ≡ some compared)
      × (compared.disconnected ≡ so_far.disconnected ++ lost later children)
      × (compared.reconnected ≡ so_far.reconnected)
      × (compared.new ≡ so_far.new ++ gained later children)
unfolding compare_children
compare_children-events now later [] so_far distinct known =
    (so_far, refl, sym (append-nil so_far.disconnected), refl, sym (append-nil so_far.new))
compare_children-events now later (child ∷ rest) so_far distinct known =
    let id = child.node_id in
    let change = change_of (first_state child.attached) (later child) in
    let next = change_known now id change so_far in
    let (compared, done, detached, reattached, attached) =
      compare_children-events now later rest next distinct.1
        (Known-change_child id change now so_far.local.nodes rest distinct.0 known.1) in
    let (lost_too, _, _) = events child.attached (later child) id (lost later rest) in
    let (_, none_again, gained_too) = events child.attached (later child) id (gained later rest) in
    (
      compared,
      rw (compare_child-Known now later child so_far known.0, compare_children) done,
      detached
          ∙ append_assoc so_far.disconnected (if_detach change id) (lost later rest)
          ∙ ap (λ l. so_far.disconnected ++ l) lost_too,
      reattached ∙ ap (λ l. so_far.reconnected ++ l) none_again ∙ append-nil so_far.reconnected,
      attached
          ∙ append_assoc so_far.new (if_attach_new change id) (gained later rest)
          ∙ ap (λ l. so_far.new ++ l) gained_too,
    )

-- Where the records of the query at the start have different IDs, the list is filled from them
-- without an access to a freed record, and a comparison with the same records, whatever their
-- states are by then, raises a disconnection exactly for the children that were attached at the
-- start and are detached now, a new attachment exactly for those that were not attached at the
-- start and are attached now, and no reconnection.
pub first_child_nodes-events :
    (records : List ChildRecord) (later : ChildRecord → NodeAttached) (now : ℕ)
    → Distinct records
    → (list : ChildList) × (compared : Comparison) × (first_child_nodes (some records) ≡ some list)
      × (compare_children now (map (seen later) records) (no_events list) ≡ some compared)
      × (compared.disconnected ≡ lost later records)
      × (compared.reconnected ≡ [])
      × (compared.new ≡ gained later records)
unfolding first_child_nodes
first_child_nodes-events records later now distinct =
    let (list, filled, nodes) = fill-nodes records empty_list (refl, refl) in
    let known =
      subst (λ l. All (Known l) records) (sym nodes) (Known-first_node records distinct) in
    let (compared, done, detached, reattached, attached) =
      compare_children-events now later records (no_events list) distinct known in
    (list, compared, filled, done, detached, reattached, attached)
