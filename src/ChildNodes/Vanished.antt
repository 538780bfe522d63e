-- ===== src/ChildNodes/Vanished.antt =====
-- A child node that the database no longer has: what `check_primary_child_nodes` does about it.
use repmgr.Base.{
  ℕ, ◌≡◌, refl, sym, ap, ◌∙◌, ◌↔◌, inl, inr, ℤ, ◌==ℤ◌, Bool, true, false, not, Option, none, some,
  List, [], ◌∷◌, ◌++◌, map, if◌then◌else◌, arith, Bool-cases,
}
use mathlib.Core.Path.{subst}
use mathlib.Core.List.{append-nil}
use repmgr.ChildNodes.Records.{ChildRecord, ChildNode, ChildList}
use repmgr.ChildNodes.Command.{ChildSettings}
use repmgr.ChildNodes.Watch.{
  as_checked, Comparison, registered, all_found, no_events, Watched, conclude_watch,
  check_primary_child_nodes,
}
use repmgr.ChildNodes.Tracking.{WellFormed, ids, unknown_ids, compare_children-WellFormed}

all_found-true :
    (children : List ChildRecord) (nodes : List ChildNode) → all_found children true nodes ≡ true
unfolding all_found
all_found-true children [] = refl
all_found-true children (node ∷ rest) = all_found-true children rest

-- There are children, and the first node of the list is none of them.
abbrev pub first_vanished : List ChildRecord → List ℤ → Bool
first_vanished [] known = false
first_vanished (child ∷ rest) [] = false
first_vanished (child ∷ rest) (id ∷ known) = not (registered id (child ∷ rest))

all_found-ids :
    (child : ChildRecord) (rest : List ChildRecord) (nodes : List ChildNode)
    → all_found (child ∷ rest) false nodes ≡ not (first_vanished (child ∷ rest) (ids nodes))
unfolding all_found
all_found-ids child rest [] = refl
all_found-ids child rest (node ∷ nodes) =
    elim (Bool-cases (registered node.node_id (child ∷ rest))) [
      | inl known ↦ rw (known, all_found-true (child ∷ rest) nodes) refl
      | inr gone ↦ rw gone refl
    ]

==ℤ-refl : (a : ℤ) → (a ==ℤ a) ≡ true
==ℤ-refl a = ground arith

first_vanished-append :
    (child : ChildRecord) (rest : List ChildRecord) (known : List ℤ)
    → first_vanished (child ∷ rest) (known ++ unknown_ids known (child ∷ rest))
      ≡ first_vanished (child ∷ rest) known
first_vanished-append child rest [] = rw (==ℤ-refl child.node_id) refl
first_vanished-append child rest (id ∷ known) = refl

registered-map :
    (f : ChildRecord → ChildRecord) (id : ℤ) (children : List ChildRecord)
    → ((child : ChildRecord) → (f child).node_id ≡ child.node_id)
    → registered id (map f children) ≡ registered id children
registered-map f id [] same = refl
registered-map f id (child ∷ rest) same = rw (same child, registered-map f id rest same) refl

unknown_ids-map :
    (f : ChildRecord → ChildRecord) (known : List ℤ) (children : List ChildRecord)
    → ((child : ChildRecord) → (f child).node_id ≡ child.node_id)
    → unknown_ids known (map f children) ≡ unknown_ids known children
unknown_ids-map f known [] same = refl
unknown_ids-map f known (child ∷ rest) same =
    rw
      (
        same child,
        unknown_ids-map f known rest same,
        unknown_ids-map f (known ++ child.node_id ∷ []) rest same,
      )
      refl

as_checked-node_id :
    (local_id : ℤ) (upstream : ChildRecord → Option ℤ) (child : ChildRecord)
    → (as_checked local_id upstream child).node_id ≡ child.node_id
unfolding as_checked
as_checked-node_id local_id upstream child = refl

first_vanished-map :
    (f : ChildRecord → ChildRecord) (known : List ℤ) (children : List ChildRecord)
    → ((child : ChildRecord) → (f child).node_id ≡ child.node_id)
    → first_vanished (map f children) known ≡ first_vanished children known
first_vanished-map f known [] same = refl
first_vanished-map f [] (child ∷ rest) same = refl
first_vanished-map f (id ∷ known) (child ∷ rest) same =
    ap not (registered-map f id (child ∷ rest) same)

if-some {ℓ} : {A : Type ℓ} (b : Bool) (x y : A) → (if b then some x else none) ≡ some y → x ≡ y
if-some true x y h = grind arith
if-some false x y h = grind arith

module _ (settings : ChildSettings) (has_command paused : Bool) (now : ℕ) where
  -- The check when the query returns `children`.
  abbrev pub watch :
      ℤ → (ChildRecord → Option ℤ) → List ChildRecord → ChildList → Bool → Option Watched
  watch local_id upstream children local executed =
      check_primary_child_nodes settings has_command paused now local_id upstream (some children)
        local executed

  conclude_watch-none_iff :
      (child : ChildRecord) (rest : List ChildRecord) (executed : Bool) (compared : Comparison)
      → (conclude_watch settings has_command paused now (child ∷ rest) executed compared ≡ none)
        ↔ (first_vanished (child ∷ rest) (ids compared.local.nodes) ≡ true)
  unfolding conclude_watch
  conclude_watch-none_iff child rest executed compared =
      ground (arith, all_found-ids child rest compared.local.nodes)

  conclude_watch-some :
      (children : List ChildRecord) (executed : Bool) (compared : Comparison) (watched : Watched)
      → conclude_watch settings has_command paused now children executed compared ≡ some watched
      → compared ≡ watched.comparison
  unfolding conclude_watch
  conclude_watch-some children executed compared watched h =
      ap (λ w. w.comparison) (if-some (all_found children false compared.local.nodes) _ watched h)

  -- The check of children that the query has returned, as far as the comparison.
  watch-compared :
      (local_id : ℤ) (upstream : ChildRecord → Option ℤ) (child : ChildRecord)
      (rest : List ChildRecord) (local : ChildList) (executed : Bool)
      → WellFormed local
      → (compared : Comparison) × WellFormed compared.local
        × (ids compared.local.nodes
            ≡ ids local.nodes ++ unknown_ids (ids local.nodes) (child ∷ rest))
        × (watch local_id upstream (child ∷ rest) local executed
            ≡ conclude_watch settings has_command paused now
                (map (as_checked local_id upstream) (child ∷ rest))
                executed
                compared)
  unfolding check_primary_child_nodes
  watch-compared local_id upstream child rest local executed formed =
      let children = map (as_checked local_id upstream) (child ∷ rest) in
      let (compared, equal, formed', nodes') =
        compare_children-WellFormed now children (no_events local) formed in
      (
        compared,
        formed',
        nodes'
            ∙ ap (λ l. ids local.nodes ++ l)
                (unknown_ids-map (as_checked local_id upstream) (ids local.nodes) (child ∷ rest)
                  (as_checked-node_id local_id upstream)),
        rw equal refl,
      )

  -- The check reads a record that it has freed exactly when the query has returned some child
  -- node, but not the first node of the local list.
  pub check_primary_child_nodes-freed_iff :
      (local_id : ℤ) (upstream : ChildRecord → Option ℤ) (children : List ChildRecord)
      (local : ChildList) (executed : Bool)
      → WellFormed local
      → (watch local_id upstream children local executed ≡ none)
        ↔ (first_vanished children (ids local.nodes) ≡ true)
  unfolding check_primary_child_nodes
  check_primary_child_nodes-freed_iff local_id upstream [] local executed formed = ground arith
  check_primary_child_nodes-freed_iff local_id upstream (child ∷ rest) local executed formed =
      let (compared, formed', nodes', equal) =
        watch-compared local_id upstream child rest local executed formed in
      let f = as_checked local_id upstream in
      let vanished : first_vanished (map f (child ∷ rest)) (ids compared.local.nodes)
          ≡ first_vanished (child ∷ rest) (ids local.nodes) =
        first_vanished-map f (ids compared.local.nodes) (child ∷ rest)
          (as_checked-node_id local_id upstream)
        ∙ ap (first_vanished (child ∷ rest)) nodes'
        ∙ first_vanished-append child rest (ids local.nodes) in
      rw equal (
        subst
          (λ b.
            (conclude_watch settings has_command paused now (map f (child ∷ rest)) executed compared
              ≡ none)
            ↔ (b ≡ true))
          vanished (conclude_watch-none_iff (f child) (map f rest) executed compared))

  -- A check that touches no freed record leaves a well-formed list with all the nodes that it had
  -- before, in order, and after them the child nodes that the query has returned and the list had
  -- not: no node is ever removed.
  pub check_primary_child_nodes-keeps :
      (local_id : ℤ) (upstream : ChildRecord → Option ℤ) (children : List ChildRecord)
      (local : ChildList) (executed : Bool) (watched : Watched)
      → WellFormed local
      → watch local_id upstream children local executed ≡ some watched
      → WellFormed watched.comparison.local
        × (ids watched.comparison.local.nodes
            ≡ ids local.nodes ++ unknown_ids (ids local.nodes) children)
  unfolding check_primary_child_nodes
  check_primary_child_nodes-keeps local_id upstream [] local executed watched formed h =
      subst (λ list. WellFormed list × (ids list.nodes ≡ ids local.nodes ++ []))
        (ap (λ w. w.comparison.local) (if-some true _ watched h))
        (formed, sym (append-nil (ids local.nodes)))
  check_primary_child_nodes-keeps local_id upstream (child ∷ rest) local executed watched formed h =
      let (compared, formed', nodes', equal) =
        watch-compared local_id upstream child rest local executed formed in
      subst
        (λ list.
          WellFormed list
          × (ids list.nodes ≡ ids local.nodes ++ unknown_ids (ids local.nodes) (child ∷ rest)))
        (ap (λ c. c.local)
          (conclude_watch-some (map (as_checked local_id upstream) (child ∷ rest)) executed compared
            watched (sym equal ∙ h)))
        (formed', nodes')
