-- ===== src/ChildNodes/Shortage.antt =====
-- When "child_nodes_disconnect_command" runs, in one check and over many.
use repmgr.Base.{
  ℕ, suc, ◌+◌, ◌≤◌, ◌≡◌, ◌⊎◌, pos, ltb_ℤ, leb_ℤ, ◌==ℤ◌, ◌==◌, Bool, true, false, not, ◌&&◌, ◌||◌,
  List, [], ◌∷◌, if◌then◌else◌, arith,
}
use repmgr.Nodes.{ServerType, is_witness, unknown_node_id}
use repmgr.ChildNodes.Records.{ChildRecord, ChildNode}
use repmgr.ChildNodes.Command.{
  ChildSettings, is_attached, is_detached, seconds_since, too_few, Reaction,
  execute_child_nodes_disconnect_command,
}

-- A node of the type counts: a witness only with "child_nodes_connected_include_witness".
abbrev pub counts : ChildSettings → ServerType → Bool
counts settings type = settings.child_nodes_connected_include_witness || not (is_witness type)

-- How many child nodes that count are attached, and how many are not.
abbrev pub present : ChildSettings → List ChildRecord → ℕ
present settings [] = 0
present settings (child ∷ rest) =
    let n = present settings rest in
    if counts settings child.type && is_attached child.attached then suc n else n

abbrev pub missing : ChildSettings → List ChildRecord → ℕ
missing settings [] = 0
missing settings (child ∷ rest) =
    let n = missing settings rest in
    if counts settings child.type && not (is_attached child.attached) then suc n else n

-- Fewer nodes are attached than "child_nodes_connected_min_count"; where that is not set, at least
-- "child_nodes_disconnect_min_count" are not attached; where neither is set, none is attached.
abbrev pub in_shortage : ChildSettings → List ChildRecord → Bool
in_shortage settings children =
    if ltb_ℤ (pos 0) settings.child_nodes_connected_min_count
    then ltb_ℤ (pos (present settings children)) settings.child_nodes_connected_min_count
    else if ltb_ℤ (pos 0) settings.child_nodes_disconnect_min_count
    then leb_ℤ settings.child_nodes_disconnect_min_count (pos (missing settings children))
    else present settings children == 0

abbrev witnesses : List ChildRecord → ℕ
witnesses [] = 0
witnesses (child ∷ rest) = let n = witnesses rest in if is_witness child.type then suc n else n

abbrev pub AtMostOneWitness : List ChildRecord → Type 0
AtMostOneWitness children = witnesses children ≤ 1

-- A record that the search for the most recent disconnection considers.
abbrev pub counts_as_detached : ChildSettings → ChildNode → Bool
counts_as_detached settings child = counts settings child.type && is_detached child.attached

abbrev pub any_detached : ChildSettings → List ChildNode → Bool
any_detached settings [] = false
any_detached settings (child ∷ rest) =
    counts_as_detached settings child || any_detached settings rest

-- Some record has been detached for less than "child_nodes_disconnect_timeout".
abbrev pub any_recent : ChildSettings → ℕ → List ChildNode → Bool
any_recent settings now [] = false
any_recent settings now (child ∷ rest) =
    (counts_as_detached settings child
      && ltb_ℤ (seconds_since now child.detached_time) settings.child_nodes_disconnect_timeout)
    || any_recent settings now rest

-- The ID of the record is not the one that stands for no node.
abbrev pub Named : ChildNode → Type 0
Named child = (child.node_id ==ℤ unknown_node_id) ≡ false

-- One check of the child nodes: the time, the records of the database and the local ones.
pub record Check : Type 0 where
  pub now : ℕ
  pub children : List ChildRecord
  pub local : List ChildNode

abbrev pub react : ChildSettings → Bool → Check → Reaction
unfolding execute_child_nodes_disconnect_command
react settings executed check =
    execute_child_nodes_disconnect_command settings check.now check.children check.local executed

-- How often the command runs in a sequence of checks.
abbrev pub runs : ChildSettings → Bool → List Check → ℕ
runs settings executed [] = 0
runs settings executed (check ∷ rest) =
    let reaction = react settings executed check in
    let later = runs settings reaction.command_executed rest in
    if reaction.ran_command then suc later else later

-- How many checks find enough child nodes connected.
abbrev pub recoveries : ChildSettings → List Check → ℕ
recoveries settings [] = 0
recoveries settings (check ∷ rest) =
    let later = recoveries settings rest in
    if too_few settings check.children then later else suc later

react-cases :
    (settings : ChildSettings) (executed : Bool) (check : Check)
    → ((too_few settings check.children ≡ false)
        × ((react settings executed check).ran_command ≡ false)
        × ((react settings executed check).command_executed ≡ false))
      ⊎ ((too_few settings check.children ≡ true)
          × ((react settings executed check).command_executed
              ≡ (executed || (react settings executed check).ran_command))
          × ((executed && (react settings executed check).ran_command) ≡ false))
unfolding execute_child_nodes_disconnect_command
react-cases settings executed check = ground arith

abbrev pub one_if : Bool → ℕ
one_if true = 1
one_if false = 0

-- Over any sequence of checks the command runs at most once more often than there are checks
-- that find enough child nodes connected, and not once more if it had run before.
pub runs-le-recoveries :
    (settings : ChildSettings) (executed : Bool) (checks : List Check)
    → runs settings executed checks + one_if executed ≤ recoveries settings checks + 1
runs-le-recoveries settings executed [] = ground arith
runs-le-recoveries settings executed (check ∷ rest) = ground (
  arith,
  react-cases settings executed check,
  runs-le-recoveries settings (react settings executed check).command_executed rest,
)
