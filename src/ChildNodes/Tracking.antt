-- ===== src/ChildNodes/Tracking.antt =====
-- The local list of child nodes after `check_primary_child_nodes`: which nodes it has, and when
-- the check reads a record that it has freed.
use repmgr.Base.{
  ℕ, suc, ◌+◌, ◌≡◌, refl, sym, ap, ◌∙◌, inl, inr, ℤ, ◌==ℤ◌, Bool, true, false, ◌||◌, none, some,
  List, [], ◌∷◌, ◌++◌, length, length-append, if◌then◌else◌, arith, Option-cases, Bool-cases,
}
use repmgr.ChildNodes.Records.{
  ChildRecord, ChildNode, Tail, no_tail, last_record, freed_record, append_at, ChildList,
  append_child_node_record,
}
use repmgr.ChildNodes.Watch.{
  Change, keep, detach, reattach, attach_new, update, Comparison, find_child, change_of,
  change_child, change_known, fresh_node, with_new, compare_child, compare_children,
}
use mathlib.Core.List.{append_assoc, append-nil}

abbrev pub tail_of : List ChildNode → Tail
tail_of [] = no_tail
tail_of (node ∷ rest) = last_record

-- The tail leads to the last record, and the number of nodes is right.
abbrev pub WellFormed : ChildList → Type 0
WellFormed list = (list.tail ≡ tail_of list.nodes) × (list.node_count ≡ length list.nodes)

abbrev pub ids : List ChildNode → List ℤ
ids [] = []
ids (node ∷ rest) = node.node_id ∷ ids rest

abbrev pub member : ℤ → List ℤ → Bool
member id [] = false
member id (x ∷ rest) = (x ==ℤ id) || member id rest

-- The IDs of the children that are not among the known ones, each once.
abbrev pub unknown_ids : List ℤ → List ChildRecord → List ℤ
unknown_ids known [] = []
unknown_ids known (child ∷ rest) =
    let same = unknown_ids known rest in
    let more = child.node_id ∷ unknown_ids (known ++ child.node_id ∷ []) rest in
    if member child.node_id known then same else more

pub update-node_id :
    (change : Change) (now : ℕ) (node : ChildNode) → (update change now node).node_id ≡ node.node_id
update-node_id keep now node = refl
update-node_id detach now node = refl
update-node_id reattach now node = refl
update-node_id attach_new now node = refl

ids-change_child :
    (id : ℤ) (change : Change) (now : ℕ) (nodes : List ChildNode)
    → ids (change_child id change now nodes) ≡ ids nodes
ids-change_child id change now [] = refl
ids-change_child id change now (node ∷ rest) = elim (Bool-cases (node.node_id ==ℤ id)) [
  | inl same ↦ rw same (ap (λ i. i ∷ ids rest) (update-node_id change now node))
  | inr other ↦ rw other (ap (λ l. node.node_id ∷ l) (ids-change_child id change now rest))
]

length-ids : (nodes : List ChildNode) → length (ids nodes) ≡ length nodes
length-ids [] = refl
length-ids (node ∷ rest) = ap suc (length-ids rest)

abbrev tail_of_ids : List ℤ → Tail
tail_of_ids [] = no_tail
tail_of_ids (id ∷ rest) = last_record

tail_of-ids : (nodes : List ChildNode) → tail_of_ids (ids nodes) ≡ tail_of nodes
tail_of-ids [] = refl
tail_of-ids (node ∷ rest) = refl

ids-append :
    (xs : List ChildNode) (node : ChildNode) → ids (xs ++ node ∷ []) ≡ ids xs ++ node.node_id ∷ []
ids-append [] node = refl
ids-append (x ∷ xs) node = ap (λ l. x.node_id ∷ l) (ids-append xs node)

tail_of-append : (xs : List ChildNode) (node : ChildNode) → tail_of (xs ++ node ∷ []) ≡ last_record
tail_of-append [] node = refl
tail_of-append (x ∷ xs) node = refl

find_child-none :
    (id : ℤ) (nodes : List ChildNode) → find_child id nodes ≡ none → member id (ids nodes) ≡ false
find_child-none id [] h = refl
find_child-none id (node ∷ rest) h = ground (arith, find_child-none id rest)

find_child-some :
    (id : ℤ) (nodes : List ChildNode) (found : ChildNode)
    → find_child id nodes ≡ some found
    → member id (ids nodes) ≡ true
find_child-some id [] found h = ground arith
find_child-some id (node ∷ rest) found h = ground (arith, find_child-some id rest found)

append_at-WellFormed :
    (nodes : List ChildNode) (tail : Tail) (node_count : ℕ) (node : ChildNode)
    → tail ≡ tail_of nodes
    → node_count ≡ length nodes
    → (list' : ChildList) × (append_at tail
          (record { nodes = nodes; tail = tail; node_count = node_count })
          node
        ≡ some list')
      × WellFormed list'
      × (list'.nodes ≡ nodes ++ node ∷ [])
append_at-WellFormed [] no_tail node_count node linked counted = (
  record { nodes = node ∷ []; tail = last_record; node_count = node_count + 1 },
  refl,
  (refl, omega (arith, counted)),
  refl,
)
append_at-WellFormed [] last_record node_count node linked counted = absurd (ground arith)
append_at-WellFormed [] freed_record node_count node linked counted = absurd (ground arith)
append_at-WellFormed (x ∷ xs) no_tail node_count node linked counted = absurd (ground arith)
append_at-WellFormed (x ∷ xs) last_record node_count node linked counted = (
  record { nodes = x ∷ xs ++ node ∷ []; tail = last_record; node_count = node_count + 1 },
  refl,
  (refl, omega (arith, counted, length-append xs (node ∷ []))),
  refl,
)
append_at-WellFormed (x ∷ xs) freed_record node_count node linked counted = absurd (ground arith)

pub append-WellFormed :
    (list : ChildList) (node : ChildNode)
    → WellFormed list
    → (list' : ChildList) × (append_child_node_record list node ≡ some list')
      × WellFormed list'
      × (list'.nodes ≡ list.nodes ++ node ∷ [])
unfolding append_child_node_record
append-WellFormed list node formed =
    append_at-WellFormed list.nodes list.tail list.node_count node formed.0 formed.1

pub change_known-WellFormed :
    (now : ℕ) (id : ℤ) (change : Change) (so_far : Comparison)
    → WellFormed so_far.local
    → WellFormed (change_known now id change so_far).local
change_known-WellFormed now id change so_far formed =
    let same = ids-change_child id change now so_far.local.nodes in
    let nodes = so_far.local.nodes in
    let nodes' = change_child id change now nodes in
    (
      formed.0 ∙ sym (tail_of-ids nodes) ∙ ap tail_of_ids (sym same) ∙ tail_of-ids nodes',
      formed.1 ∙ sym (length-ids nodes) ∙ ap length (sym same) ∙ length-ids nodes',
    )

compare_child-WellFormed :
    (now : ℕ) (child : ChildRecord) (so_far : Comparison)
    → WellFormed so_far.local
    → (so_far' : Comparison) × (compare_child now child so_far ≡ some so_far')
      × WellFormed so_far'.local
      × (ids so_far'.local.nodes
          ≡ ids so_far.local.nodes ++ unknown_ids (ids so_far.local.nodes) (child ∷ []))
unfolding compare_child
compare_child-WellFormed now child so_far formed =
    elim (Option-cases (find_child child.node_id so_far.local.nodes)) [
      | inl fresh ↦
          let (list', appended, formed', nodes') =
            append-WellFormed so_far.local (fresh_node child) formed in
          rw
            (fresh, compare_child, appended, find_child-none child.node_id so_far.local.nodes fresh)
            (
              with_new child.node_id so_far list',
              refl,
              formed',
              ap ids nodes' ∙ ids-append so_far.local.nodes (fresh_node child),
            )
      | inr (node, known) ↦
          let change = change_of node.attached child.attached in
          rw (known, compare_child, find_child-some child.node_id so_far.local.nodes node known)
            (
              change_known now child.node_id change so_far,
              refl,
              change_known-WellFormed now child.node_id change so_far formed,
              ids-change_child child.node_id change now so_far.local.nodes
                  ∙ sym (append-nil (ids so_far.local.nodes)),
            )
    ]

unknown_ids-step :
    (known : List ℤ) (child : ChildRecord) (rest : List ChildRecord)
    → unknown_ids known (child ∷ rest)
      ≡ unknown_ids known (child ∷ []) ++ unknown_ids (known ++ unknown_ids known (child ∷ [])) rest
unknown_ids-step known child rest = elim (Bool-cases (member child.node_id known)) [
  | inl old ↦ rw (old, append-nil known) refl
  | inr fresh ↦ rw fresh refl
]

-- On a well-formed list the comparison never meets a freed record, and only adds nodes.
pub compare_children-WellFormed :
    (now : ℕ) (children : List ChildRecord) (so_far : Comparison)
    → WellFormed so_far.local
    → (so_far' : Comparison) × (compare_children now children so_far ≡ some so_far')
      × WellFormed so_far'.local
      × (ids so_far'.local.nodes
          ≡ ids so_far.local.nodes ++ unknown_ids (ids so_far.local.nodes) children)
unfolding compare_children
compare_children-WellFormed now [] so_far formed =
    (so_far, refl, formed, sym (append-nil (ids so_far.local.nodes)))
compare_children-WellFormed now (child ∷ rest) so_far formed =
    let known = ids so_far.local.nodes in
    let (next, compared, formed', nodes') = compare_child-WellFormed now child so_far formed in
    let (last, compared', formed'', nodes'') = compare_children-WellFormed now rest next formed' in
    (
      last,
      rw (compared, compare_children) compared',
      formed'',
      nodes''
          ∙ ap (λ l. l ++ unknown_ids l rest) nodes'
          ∙ append_assoc known (unknown_ids known (child ∷ []))
              (unknown_ids (known ++ unknown_ids known (child ∷ [])) rest)
          ∙ ap (λ l. known ++ l) (sym (unknown_ids-step known child rest)),
    )
