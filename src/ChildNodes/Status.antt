-- ===== src/ChildNodes/Status.antt =====
-- Whether the local list marks a child node as attached, after the comparison with the database.
use repmgr.Base.{
  ℕ, ◌≡◌, refl, sym, ◌∙◌, inl, inr, ℤ, ◌==ℤ◌, true, false, ◌||◌, none, some, List, [], ◌∷◌, ◌++◌,
  All, All-append, arith, Option-cases, Bool-cases,
}
use mathlib.Core.Path.{subst}
use mathlib.Core.Option.{some-injective}
use repmgr.Nodes.{NodeAttached, node_not_attached}
use repmgr.ChildNodes.Records.{ChildRecord, ChildNode}
use repmgr.ChildNodes.Command.{is_attached, is_detached}
use repmgr.ChildNodes.Watch.{
  Change, keep, detach, reattach, attach_new, update, Comparison, find_child, change_of,
  change_child, change_known, fresh_node, with_new, compare_child, compare_children, registered,
}
use repmgr.ChildNodes.Tracking.{
  update-node_id, WellFormed, append-WellFormed, change_known-WellFormed,
}

-- A state that the check can give to a node of the local list.
abbrev pub Trackable : ChildNode → Type 0
Trackable node = (elim node.attached [ node_not_attached ↦ false | _ ↦ true ]) ≡ true

-- A record whose state is known.
abbrev pub Settled : ChildRecord → Type 0
Settled child = (is_attached child.attached || is_detached child.attached) ≡ true

abbrev pub Distinct : List ChildRecord → Type 0
Distinct [] = Unit
Distinct (child ∷ rest) = (registered child.node_id rest ≡ false) × Distinct rest

-- The list has the child, and marks it as attached exactly when the record does.
abbrev pub Agrees : List ChildNode → ChildRecord → Type 0
Agrees nodes child =
    (node : ChildNode) × (find_child child.node_id nodes ≡ some node)
    × (is_attached node.attached ≡ is_attached child.attached)

-- What one list finds, the other finds too.
abbrev pub Keeps : ℤ → List ChildNode → List ChildNode → Type 0
Keeps id nodes nodes' =
    (other : ℤ) (node : ChildNode)
    → (id ==ℤ other) ≡ false
    → find_child other nodes ≡ some node
    → find_child other nodes' ≡ some node

update-attached :
    (now : ℕ) (node : ChildNode) (state : NodeAttached)
    → Trackable node
    → (is_attached state || is_detached state) ≡ true
    → is_attached (update (change_of node.attached state) now node).attached ≡ is_attached state
update-attached now node state trackable settled = ground arith

update-Trackable :
    (change : Change) (now : ℕ) (node : ChildNode)
    → Trackable node
    → Trackable (update change now node)
update-Trackable keep now node h = h
update-Trackable detach now node h = refl
update-Trackable reattach now node h = refl
update-Trackable attach_new now node h = refl

change_child-Trackable :
    (id : ℤ) (change : Change) (now : ℕ) (nodes : List ChildNode)
    → All Trackable nodes
    → All Trackable (change_child id change now nodes)
change_child-Trackable id change now [] h = tt
change_child-Trackable id change now (node ∷ rest) h = elim (Bool-cases (node.node_id ==ℤ id)) [
  | inl same ↦ rw same (update-Trackable change now node h.0, h.1)
  | inr other ↦ rw other (h.0, change_child-Trackable id change now rest h.1)
]

find_child-change_child :
    (id : ℤ) (change : Change) (now : ℕ) (nodes : List ChildNode) (node : ChildNode)
    → find_child id nodes ≡ some node
    → find_child id (change_child id change now nodes) ≡ some (update change now node)
find_child-change_child id change now [] node h = ground arith
find_child-change_child id change now (first ∷ rest) node h =
    ground (arith, update-node_id change now first, find_child-change_child id change now rest node)

pub change_child-Keeps :
    (id : ℤ) (change : Change) (now : ℕ) (nodes : List ChildNode)
    → Keeps id nodes (change_child id change now nodes)
change_child-Keeps id change now [] other node apart h = h
change_child-Keeps id change now (first ∷ rest) other node apart h =
    ground
      (arith, update-node_id change now first, change_child-Keeps id change now rest other node)

append-Keeps :
    (new : ChildNode) (nodes : List ChildNode) → Keeps new.node_id nodes (nodes ++ new ∷ [])
append-Keeps new [] other node apart h = ground arith
append-Keeps new (first ∷ rest) other node apart h =
    ground (arith, append-Keeps new rest other node)

find_child-append :
    (new : ChildNode) (nodes : List ChildNode)
    → find_child new.node_id nodes ≡ none
    → find_child new.node_id (nodes ++ new ∷ []) ≡ some new
find_child-append new [] h = ground arith
find_child-append new (first ∷ rest) h = ground (arith, find_child-append new rest)

find_child-Trackable :
    (id : ℤ) (nodes : List ChildNode) (node : ChildNode)
    → All Trackable nodes
    → find_child id nodes ≡ some node
    → Trackable node
find_child-Trackable id [] node trackable h = ground arith
find_child-Trackable id (first ∷ rest) node trackable h = elim (Bool-cases (first.node_id ==ℤ id)) [
  | inl same ↦ subst Trackable (some-injective first node (rw same refl ∙ h)) trackable.0
  | inr other ↦ find_child-Trackable id rest node trackable.1 (rw other refl ∙ h)
]

compare_children-step :
    (now : ℕ) (child : ChildRecord) (rest : List ChildRecord) (so_far next : Comparison)
    → compare_child now child so_far ≡ some next
    → compare_children now (child ∷ rest) so_far ≡ compare_children now rest next
unfolding compare_children
compare_children-step now child rest so_far next h = rw (h, compare_children) refl

fresh_node-Trackable : (child : ChildRecord) → Settled child → Trackable (fresh_node child)
fresh_node-Trackable child settled = ground arith

fresh_node-attached :
    (child : ChildRecord)
    → Settled child
    → is_attached (fresh_node child).attached ≡ is_attached child.attached
fresh_node-attached child settled = ground arith

compare_child-Agrees :
    (now : ℕ) (child : ChildRecord) (so_far : Comparison)
    → WellFormed so_far.local
    → All Trackable so_far.local.nodes
    → Settled child
    → (so_far' : Comparison) × (compare_child now child so_far ≡ some so_far')
      × WellFormed so_far'.local
      × All Trackable so_far'.local.nodes
      × Agrees so_far'.local.nodes child
      × Keeps child.node_id so_far.local.nodes so_far'.local.nodes
unfolding compare_child
compare_child-Agrees now child so_far formed trackable settled =
    let id = child.node_id in
    let nodes = so_far.local.nodes in
    elim (Option-cases (find_child id nodes)) [
      | inl fresh ↦
          let new = fresh_node child in
          let (list', appended, formed', nodes') = append-WellFormed so_far.local new formed in
          let (trackable', agrees', keeps') =
            subst (λ l. All Trackable l × Agrees l child × Keeps id nodes l) (sym nodes')
              (
                All-append Trackable nodes (new ∷ []) trackable
                    (fresh_node-Trackable child settled, tt),
                (new, find_child-append new nodes fresh, fresh_node-attached child settled),
                append-Keeps new nodes,
              ) in
          rw (fresh, compare_child, appended)
            (with_new id so_far list', refl, formed', trackable', agrees', keeps')
      | inr (node, known) ↦
          let change = change_of node.attached child.attached in
          rw (known, compare_child)
            (
              change_known now id change so_far,
              refl,
              change_known-WellFormed now id change so_far formed,
              change_child-Trackable id change now nodes trackable,
              (
                update change now node,
                find_child-change_child id change now nodes node known,
                update-attached now node child.attached
                    (find_child-Trackable id nodes node trackable known) settled,
              ),
              change_child-Keeps id change now nodes,
            )
    ]

registered-apart :
    (id : ℤ) (children : List ChildRecord)
    → registered id children ≡ false
    → All (λ child. (child.node_id ==ℤ id) ≡ false) children
registered-apart id [] h = tt
registered-apart id (child ∷ rest) h = (ground arith, registered-apart id rest (ground arith))

compare_children-Keeps :
    (now : ℕ) (id : ℤ) (node : ChildNode) (children : List ChildRecord)
    (so_far so_far' : Comparison)
    → WellFormed so_far.local
    → All Trackable so_far.local.nodes
    → All Settled children
    → All (λ child. (child.node_id ==ℤ id) ≡ false) children
    → compare_children now children so_far ≡ some so_far'
    → find_child id so_far.local.nodes ≡ some node
    → find_child id so_far'.local.nodes ≡ some node
unfolding compare_children
compare_children-Keeps now id node [] so_far so_far' formed trackable settled apart done found =
    subst (λ c. find_child id c.local.nodes ≡ some node) (some-injective so_far so_far' done) found
compare_children-Keeps now id node (child ∷ rest) so_far so_far' formed trackable settled apart done
      found =
    let (next, compared, formed', trackable', agrees, keeps) =
      compare_child-Agrees now child so_far formed trackable settled.0 in
    compare_children-Keeps now id node rest next so_far' formed' trackable' settled.1 apart.1
      (sym (compare_children-step now child rest so_far next compared) ∙ done)
      (keeps id node apart.0 found)

-- After the comparison of a well-formed local list with records that are known to be attached or
-- detached and have different IDs, the list has a node for each record, and marks it as
-- attached exactly when the record does.
pub compare_children-Agrees :
    (now : ℕ) (children : List ChildRecord) (so_far so_far' : Comparison)
    → WellFormed so_far.local
    → All Trackable so_far.local.nodes
    → All Settled children
    → Distinct children
    → compare_children now children so_far ≡ some so_far'
    → All (Agrees so_far'.local.nodes) children
compare_children-Agrees now [] so_far so_far' formed trackable settled distinct done = tt
compare_children-Agrees now (child ∷ rest) so_far so_far' formed trackable settled distinct done =
    let (next, compared, formed', trackable', agrees, keeps) =
      compare_child-Agrees now child so_far formed trackable settled.0 in
    let (node, found, same) = agrees in
    let done' = sym (compare_children-step now child rest so_far next compared) ∙ done in
    (
      (
        node,
        compare_children-Keeps now child.node_id node rest next so_far' formed' trackable' settled.1
            (registered-apart child.node_id rest distinct.0) done' found,
        same,
      ),
      compare_children-Agrees now rest next so_far' formed' trackable' settled.1 distinct.1 done',
    )
