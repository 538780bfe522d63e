-- ===== src/Templates.antt =====
-- The command templates: `parse_failover_validation_command` and
-- `parse_child_nodes_disconnect_command` of repmgrd-physical.c and `parse_follow_command` of
-- strutil.c. A C string is the list of its bytes without the final NUL, a buffer of
-- MAXPGPATH bytes the list of what is written to it.
pub mod Bounds
use repmgr.Base.{
  ℕ, zero, ◌+◌, ◌-◌, List, [], ◌∷◌, ◌++◌, ℤ, pos, show_int, take, length, ltb, ◌==◌, if◌then◌else◌,
}

-- PostgreSQL's MAXPGPATH.
abbrev pub max_pg_path : ℕ
max_pg_path = 1024

pub record ElectionStats : Type 0 where
  pub visible_nodes : ℕ
  pub shared_upstream_nodes : ℕ
  pub all_nodes : ℕ

module _ (node_id : ℤ) (node_name : List ℕ) (stats : ElectionStats) where
  unfoldable pub parse_failover_validation_command : List ℕ → List ℕ
  unfolding show_int
  parse_failover_validation_command [] = []
  parse_failover_validation_command (c ∷ []) = c ∷ []
  parse_failover_validation_command (c ∷ d ∷ src) =
      let rest = parse_failover_validation_command src in
      let same = parse_failover_validation_command (d ∷ src) in
      if c == b'%'
      then (if d == b'%'
          then b'%' ∷ rest
          else if d == b'n'
          then show_int node_id ++ rest
          else if d == b'a'
          then node_name ++ rest
          else if d == b'v'
          then show_int (pos stats.visible_nodes) ++ rest
          else if d == b'u'
          then show_int (pos stats.shared_upstream_nodes) ++ rest
          else if d == b't'
          then show_int (pos stats.all_nodes) ++ rest
          else c ∷ same)
      else c ∷ same

-- What `snprintf(dst, room, "%i", id)` leaves at `dst`.
abbrev pub snprintf_int : ℕ → ℤ → List ℕ
snprintf_int room id = take (room - 1) (show_int id)

-- The loop of `parse_follow_command` with `room` bytes left before `end_ptr`.
unfoldable pub follow_from : ℤ → ℕ → List ℕ → List ℕ
unfolding show_int
follow_from node_id room [] = []
follow_from node_id room (c ∷ []) = if ltb 0 room then c ∷ [] else []
follow_from node_id room (c ∷ d ∷ src) =
    let put = c ∷ follow_from node_id (room - 1) (d ∷ src) in
    let skip = follow_from node_id room (d ∷ src) in
    let percent = b'%' ∷ follow_from node_id (room - 1) src in
    let text = snprintf_int room node_id in
    let number = text ++ follow_from node_id (room - length text) src in
    if c == b'%'
    then (if d == b'%'
        then (if ltb 0 room then percent else skip)
        else if d == b'n'
        then number
        else if ltb 0 room
        then put
        else skip)
    else if ltb 0 room
    then put
    else skip

unfoldable pub parse_follow_command : List ℕ → ℤ → List ℕ
unfolding follow_from
parse_follow_command template node_id = follow_from node_id (max_pg_path - 1) template

-- The loop of `parse_child_nodes_disconnect_command`, whose `switch` has no default case.
unfoldable pub child_nodes_from : ℤ → ℕ → List ℕ → List ℕ
unfolding show_int
child_nodes_from node_id room [] = []
child_nodes_from node_id room (c ∷ []) = if c == b'%' then [] else if ltb 0 room then c ∷ [] else []
child_nodes_from node_id room (c ∷ d ∷ src) =
    let put = c ∷ child_nodes_from node_id (room - 1) (d ∷ src) in
    let skip = child_nodes_from node_id room (d ∷ src) in
    let percent = b'%' ∷ child_nodes_from node_id (room - 1) src in
    let text = snprintf_int room node_id in
    let number = text ++ child_nodes_from node_id (room - length text) src in
    if c == b'%'
    then (if d == b'%'
        then (if ltb 0 room then percent else skip)
        else if d == b'p'
        then number
        else skip)
    else if ltb 0 room
    then put
    else skip

unfoldable pub parse_child_nodes_disconnect_command : List ℕ → ℤ → List ℕ
unfolding child_nodes_from
parse_child_nodes_disconnect_command template reporting_node_id =
    child_nodes_from reporting_node_id (max_pg_path - 1) template
