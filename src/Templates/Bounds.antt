-- ===== src/Templates/Bounds.antt =====
-- The bounded expansions of command templates stay inside their buffer, and leave nothing out
-- when the expansion fits.
use repmgr.Base.{
  ℕ, ◌-◌, ◌≤◌, ◌<◌, ◌≡◌, refl, List, [], ◌∷◌, ◌++◌, ℤ, show_int, length, ◌==◌, if◌then◌else◌, arith,
  length-append, length-take, take-eq_self, ◌&&◌,
}
use repmgr.Templates.{
  max_pg_path, snprintf_int, follow_from, parse_follow_command, child_nodes_from,
  parse_child_nodes_disconnect_command,
}

length-snprintf_int : (room : ℕ) (id : ℤ) → length (snprintf_int room id) ≤ room
length-snprintf_int room id = omega (arith, length-take (room - 1) (show_int id))

length-follow_from-le : (id : ℤ) (room : ℕ) (src : List ℕ) → length (follow_from id room src) ≤ room
unfolding follow_from
length-follow_from-le id room [] = omega arith
length-follow_from-le id room (c ∷ []) = ground arith
length-follow_from-le id room (c ∷ d ∷ src) = ground (
  arith,
  length-snprintf_int room id,
  length-append (snprintf_int room id) (follow_from id (room - length (snprintf_int room id)) src),
  length-follow_from-le id (room - length (snprintf_int room id)) src,
  length-follow_from-le id (room - 1) src,
  length-follow_from-le id room (d ∷ src),
  length-follow_from-le id (room - 1) (d ∷ src),
)

length-child_nodes_from-le :
    (id : ℤ) (room : ℕ) (src : List ℕ) → length (child_nodes_from id room src) ≤ room
unfolding child_nodes_from
length-child_nodes_from-le id room [] = omega arith
length-child_nodes_from-le id room (c ∷ []) = ground arith
length-child_nodes_from-le id room (c ∷ d ∷ src) = ground (
  arith,
  length-snprintf_int room id,
  length-append (snprintf_int room id)
      (child_nodes_from id (room - length (snprintf_int room id)) src),
  length-child_nodes_from-le id (room - length (snprintf_int room id)) src,
  length-child_nodes_from-le id (room - 1) src,
  length-child_nodes_from-le id room (d ∷ src),
  length-child_nodes_from-le id (room - 1) (d ∷ src),
)

-- The parsed commands of "follow_command" and "child_nodes_disconnect_command", with the final
-- NUL, fit the caller's buffer of MAXPGPATH bytes, whatever the template and the node ID.
pub parsed_command_fits :
    (template : List ℕ) (id : ℤ)
    → (length (parse_follow_command template id) < max_pg_path)
      × (length (parse_child_nodes_disconnect_command template id) < max_pg_path)
unfolding parse_follow_command parse_child_nodes_disconnect_command
parsed_command_fits template id = (
  omega (arith, length-follow_from-le id (max_pg_path - 1) template),
  omega (arith, length-child_nodes_from-le id (max_pg_path - 1) template),
)

-- What a follow command's template stands for, with no buffer in sight: `%%` is a percent sign,
-- `%n` is the node ID, and any other percent sign stands for itself.
abbrev pub follow_text : ℤ → List ℕ → List ℕ
follow_text id [] = []
follow_text id (c ∷ []) = c ∷ []
follow_text id (c ∷ d ∷ src) =
    let rest = follow_text id src in
    let same = follow_text id (d ∷ src) in
    if c == b'%' && d == b'%'
    then b'%' ∷ rest
    else if c == b'%' && d == b'n'
    then show_int id ++ rest
    else c ∷ same

snprintf_int-eq :
    (room : ℕ) (id : ℤ) → length (show_int id) < room → snprintf_int room id ≡ show_int id
snprintf_int-eq room id h = take-eq_self (room - 1) (show_int id) (omega arith)

follow_from-eq :
    (id : ℤ) (room : ℕ) (src : List ℕ)
    → length (follow_text id src) < room
    → follow_from id room src ≡ follow_text id src
unfolding follow_from
follow_from-eq id room [] h = refl
follow_from-eq id room (c ∷ []) h = ground arith
follow_from-eq id room (c ∷ d ∷ src) h = ground (
  arith,
  snprintf_int-eq room id,
  length-append (show_int id) (follow_text id src),
  follow_from-eq id (room - length (snprintf_int room id)) src,
  follow_from-eq id (room - 1) src,
  follow_from-eq id (room - 1) (d ∷ src),
)

-- A follow command whose text is at most MAXPGPATH - 2 bytes long is expanded in full: nothing
-- is cut off.
pub parse_follow_command-eq :
    (template : List ℕ) (id : ℤ)
    → length (follow_text id template) < max_pg_path - 1
    → parse_follow_command template id ≡ follow_text id template
unfolding parse_follow_command
parse_follow_command-eq template id h = follow_from-eq id (max_pg_path - 1) template h
