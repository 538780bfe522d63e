-- ===== src/ChildNodes/Records.antt =====
-- The records of child nodes: `t_child_node_info`, the list of them with its head, tail and
-- number of nodes, `append_child_node_record` and `remove_child_node_record`.
use repmgr.Base.{
  ℕ, ◌≡◌, arith, ◌+◌, ◌-◌, ℤ, ◌==ℤ◌, Bool, true, false, Option, none, some, List, [], ◌∷◌, ◌++◌,
  if◌then◌else◌,
}
use repmgr.Nodes.{ServerType, NodeAttached}

-- The fields of a `t_node_info` of `get_child_nodes` that the check of the child nodes reads.
pub record ChildRecord : Type 0 where
  pub node_id : ℤ
  pub type : ServerType
  pub attached : NodeAttached

-- A `t_child_node_info` without its name, which is only printed; `detached_time` counts
-- nanoseconds, and is 0 when it is not set.
pub record ChildNode : Type 0 where
  pub node_id : ℤ
  pub type : ServerType
  pub attached : NodeAttached
  pub detached_time : ℕ

-- What the pointer `tail` of a list leads to: it is NULL, or leads to the last record that is
-- reachable from the head, or to a record that has been freed.
pub data Tail : Type 0 where
  no_tail last_record freed_record : Tail

pub record ChildList : Type 0 where
  pub nodes : List ChildNode
  pub tail : Tail
  pub node_count : ℕ

-- `none` is a write through a pointer to freed memory.
abbrev pub append_at : Tail → ChildList → ChildNode → Option ChildList
append_at no_tail list child =
    some (record { nodes = child ∷ []; tail = last_record; node_count = list.node_count + 1 })
append_at last_record list child = some (record {
  nodes = list.nodes ++ child ∷ [];
  tail = last_record;
  node_count = list.node_count + 1;
})
append_at freed_record list child = none

unfoldable pub append_child_node_record : ChildList → ChildNode → Option ChildList
append_child_node_record list child = append_at list.tail list child

-- The chain without the first record that has the ID.
abbrev pub without : ℤ → List ChildNode → List ChildNode
without id [] = []
without id (node ∷ rest) =
    let rest' = without id rest in if node.node_id ==ℤ id then rest else node ∷ rest'

abbrev pub has_node : ℤ → List ChildNode → Bool
has_node id [] = false
has_node id (node ∷ rest) =
    let later = has_node id rest in if node.node_id ==ℤ id then true else later

-- The first record that has the ID is the last of the chain.
abbrev pub is_last : ℤ → List ChildNode → Bool
is_last id [] = false
is_last id (node ∷ []) = node.node_id ==ℤ id
is_last id (node ∷ next ∷ rest) =
    let later = is_last id (next ∷ rest) in if node.node_id ==ℤ id then false else later

-- The record is unlinked and freed; `tail` is never changed.
unfoldable pub remove_child_node_record : ChildList → ℤ → ChildList
remove_child_node_record list id =
    if has_node id list.nodes
    then record {
      nodes = without id list.nodes;
      tail = if is_last id list.nodes then freed_record else list.tail;
      node_count = list.node_count - 1;
    }
    else list

-- A record that is removed from a list and then appended to it goes to the end; but if it was the
-- last of the list, the second call writes to the freed record.
pub append-remove_child_node_record :
    (list : ChildList) (child : ChildNode) (id : ℤ)
    → list.tail ≡ last_record
    → has_node id list.nodes ≡ true
    → append_child_node_record (remove_child_node_record list id) child ≡ (
        if is_last id list.nodes
        then none
        else some (record {
          nodes = without id list.nodes ++ child ∷ [];
          tail = last_record;
          node_count = list.node_count - 1 + 1;
        }))
unfolding append_child_node_record remove_child_node_record
append-remove_child_node_record list child id linked known = ground arith
