-- ===== src/Client/Promote/Siblings.antt =====
-- The checks before a promotion that concern the siblings of the node, and the commands by which
-- they follow it afterwards.
use repmgr.Base.{
  ℕ, suc, ℤ, pos, ltb_ℤ, Bool, true, false, not, ◌&&◌, ◌||◌, List, [], ◌∷◌, ltb, if◌then◌else◌,
}
use repmgr.Nodes.{ServerType, is_witness}

-- The options of the command line.
pub record Options : Type 0 where
  pub dry_run : Bool
  pub force : Bool
  pub siblings_follow : Bool

pub record Sibling : Type 0 where
  pub node_id : ℤ
  pub type : ServerType
  pub slot_name : List ℕ
  pub reachable : Bool

pub record SiblingNodeStats : Type 0 where
  pub unreachable_sibling_node_count : ℕ
  pub reachable_sibling_node_count : ℕ
  pub reachable_sibling_nodes_with_slot_count : ℕ
  pub min_required_wal_senders : ℕ
  pub min_required_free_slots : ℕ

abbrev pub no_siblings : SiblingNodeStats
no_siblings = record {
  unreachable_sibling_node_count = 0;
  reachable_sibling_node_count = 0;
  reachable_sibling_nodes_with_slot_count = 0;
  min_required_wal_senders = 0;
  min_required_free_slots = 0;
}

abbrev pub has_slot : Sibling → Bool
has_slot node = elim node.slot_name [ [] ↦ false | char ∷ rest ↦ true ]

-- A sibling that can be reached by SSH.
unfoldable pub count_reachable : Sibling → SiblingNodeStats → SiblingNodeStats
count_reachable node stats =
    let counted = record stats {
      reachable_sibling_node_count = suc stats.reachable_sibling_node_count;
      min_required_wal_senders = suc stats.min_required_wal_senders;
    } in
    if has_slot node
    then record counted {
      reachable_sibling_nodes_with_slot_count = suc stats.reachable_sibling_nodes_with_slot_count;
      min_required_free_slots = suc stats.min_required_free_slots;
    }
    else counted

-- The loop that tests the connections: the siblings with their mark, and the counts.
unfoldable pub probe_siblings :
    (Sibling → Bool) → List Sibling → SiblingNodeStats → List Sibling × SiblingNodeStats
unfolding count_reachable
probe_siblings ssh_ok [] stats = ([], stats)
probe_siblings ssh_ok (node ∷ rest) stats =
    let down = record stats {
      unreachable_sibling_node_count = suc stats.unreachable_sibling_node_count;
    } in
    let counted = if ssh_ok node then count_reachable node stats else down in
    let later = probe_siblings ssh_ok rest counted in
    (record node { reachable = ssh_ok node } ∷ later.0, later.1)

-- What `check_sibling_nodes` returns and leaves behind.
pub record SiblingCheck : Type 0 where
  pub result : Bool
  pub sibling_nodes : List Sibling
  pub stats : SiblingNodeStats

-- The counts go on from those of the caller.
unfoldable pub check_sibling_nodes :
    Options → (Sibling → Bool) → List Sibling → SiblingNodeStats → SiblingCheck
unfolding probe_siblings
check_sibling_nodes options ssh_ok siblings stats =
    let probed = probe_siblings ssh_ok siblings stats in
    if not options.siblings_follow
    then record { result = true; sibling_nodes = siblings; stats = stats }
    else record {
      result = if ltb 0 probed.1.unreachable_sibling_node_count then options.force else true;
      sibling_nodes = probed.0;
      stats = probed.1;
    }

-- The result of a check, and whether the dry run is a success so far.
pub record Checked : Type 0 where
  pub result : Bool
  pub dry_run_success : Bool

unfoldable pub check_free_wal_senders : Options → ℤ → SiblingNodeStats → Bool → Checked
check_free_wal_senders options available stats dry_run_success =
    if ltb_ℤ available (pos stats.min_required_wal_senders)
    then (if not options.force || options.dry_run
        then (if options.dry_run
            then record { result = true; dry_run_success = false }
            else record { result = false; dry_run_success = dry_run_success })
        else record { result = false; dry_run_success = dry_run_success })
    else record { result = true; dry_run_success = dry_run_success }

unfoldable pub check_free_slots : Options → ℤ → SiblingNodeStats → Bool → Checked
check_free_slots options available stats dry_run_success =
    if ltb 0 stats.min_required_free_slots
      && ltb_ℤ available (pos stats.min_required_free_slots)
      && (not options.force || options.dry_run)
    then (if options.dry_run
        then record { result = true; dry_run_success = false }
        else record { result = false; dry_run_success = dry_run_success })
    else record { result = true; dry_run_success = dry_run_success }

-- What is done to a sibling once the node is promoted.
pub data SiblingAction : Type 0 where
  notify_witness register_witness standby_follow : ℤ → SiblingAction

-- `sibling_nodes_follow`: the actions, in order; a witness whose database cannot be reached is not
-- notified.
unfoldable pub sibling_nodes_follow : (Sibling → Bool) → List Sibling → List SiblingAction
sibling_nodes_follow witness_connects [] = []
sibling_nodes_follow witness_connects (node ∷ rest) =
    let later = sibling_nodes_follow witness_connects rest in
    if not node.reachable
    then later
    else if is_witness node.type
    then (if witness_connects node
        then notify_witness node.node_id ∷ register_witness node.node_id ∷ later
        else register_witness node.node_id ∷ later)
    else standby_follow node.node_id ∷ later
