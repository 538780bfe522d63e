-- ===== src/Client/Attach.antt =====
-- `check_node_can_attach` of repmgr-client.c: whether "repmgr standby follow" or "repmgr node
-- rejoin" can attach the local node to another.
use repmgr.Base.{
  ◌≡◌, refl, ℕ, ◌+◌, Bool, true, false, not, ◌&&◌, ◌||◌, Option, none, some, ltb, leb, ◌==◌,
  if◌then◌else◌, arith,
}
use repmgr.Nodes.{Lsn}
use repmgr.Election.Follow.{
  FollowWorld, SystemIdentification, invalid_lsn, can_follow_on, identified, check_node_can_follow,
}

abbrev pub unknown_system_identifier : ℕ
unknown_system_identifier = 0

-- The local node's timeline, position and system identifier, read from its control file.
pub record LocalSystem : Type 0 where
  pub tli : ℕ
  pub xlogpos : Lsn
  pub system_identifier : ℕ

-- The comparison of timelines and positions; `rewind` says that a rejoin may run pg_rewind, and
-- `success` what the checks before have found.
unfoldable pub compare_timelines :
    FollowWorld → LocalSystem → Bool → SystemIdentification → Bool → Bool
compare_timelines world local rewind target success =
    if ltb target.timeline local.tli
    then false
    else if target.timeline == local.tli
    then (if local.xlogpos == invalid_lsn || world.target_current_lsn == invalid_lsn
        then false
        else if leb local.xlogpos world.target_current_lsn
        then success
        else false)
    else elim (world.timeline_end (local.tli + 1)) [
      | none ↦ false
      | some end ↦ if ltb end local.xlogpos then (if rewind then success else false) else success
    ]

unfoldable pub compare_systems :
    FollowWorld → LocalSystem → Bool → Option SystemIdentification → Bool
unfolding compare_timelines
compare_systems world local rewind none = false
compare_systems world local rewind (some target) =
    if local.system_identifier == unknown_system_identifier
    then compare_timelines world local rewind target false
    else if not (target.system_identifier == local.system_identifier)
    then false
    else compare_timelines world local rewind target true

unfoldable pub check_node_can_attach : FollowWorld → LocalSystem → Bool → Bool → Bool
unfolding compare_systems
check_node_can_attach world local is_rejoin force_rewind_used =
    if not world.target_connects
    then false
    else compare_systems world local (is_rejoin && force_rewind_used) world.target_identification

-- The target has a higher timeline, which forked off before the local node's position.
abbrev pub forked_before : FollowWorld → LocalSystem → SystemIdentification → Bool
forked_before world local target =
    ltb local.tli target.timeline && (elim (world.timeline_end (local.tli + 1)) [
      | none ↦ false
      | some end ↦ ltb end local.xlogpos
    ])

-- The target answers, belongs to the local node's replication cluster, and has forked off before
-- the local node's position.
abbrev pub left_behind : FollowWorld → LocalSystem → Bool
left_behind world local = elim world.target_identification [
  | none ↦ false
  | some target ↦
      world.target_connects
      && not (local.system_identifier == unknown_system_identifier)
      && target.system_identifier == local.system_identifier
      && forked_before world local target
]

module _ (world : FollowWorld) where
  compare_systems-identified :
      (local : LocalSystem) (found : Option SystemIdentification)
      → (local.system_identifier == unknown_system_identifier) ≡ false
      → compare_systems world local false found
        ≡ identified world local.xlogpos
            (some (record { system_identifier = local.system_identifier; timeline = local.tli }))
            found
  unfolding compare_systems identified can_follow_on compare_timelines
  compare_systems-identified local none known = refl
  compare_systems-identified local (some target) known = ground (arith, known)

  if_not : (t a b : Bool) → a ≡ b → (if not t then false else a) ≡ (if t then b else false)
  if_not true a b e = e
  if_not false a b e = refl

  no_rewind : (t : Bool) → (t && false) ≡ false
  no_rewind true = refl
  no_rewind false = refl

  -- With both nodes identified, the client's check of whether a node can attach, unless a rejoin
  -- may run pg_rewind, has the result of the check that repmgrd makes before it follows a node.
  pub check_node_can_attach-follow :
      (local : LocalSystem) (is_rejoin : Bool)
      → (local.system_identifier == unknown_system_identifier) ≡ false
      → world.local_connects ≡ true
      → world.local_identification
        ≡ some (record { system_identifier = local.system_identifier; timeline = local.tli })
      → check_node_can_attach world local is_rejoin false
        ≡ check_node_can_follow world local.xlogpos
  unfolding check_node_can_attach check_node_can_follow
  check_node_can_attach-follow local is_rejoin known connects identification =
      rw (no_rewind is_rejoin, connects, identification)
        (if_not _ _ _ (compare_systems-identified local world.target_identification known))

  -- With "--force-rewind" a rejoin is allowed exactly where it is allowed without, or where the
  -- target belongs to the local node's replication cluster, has a higher timeline, and forked off
  -- before the local node's position; where the local system identifier is unknown, neither is.
  pub check_node_can_attach-rewind :
      (local : LocalSystem)
      → check_node_can_attach world local true true
        ≡ (check_node_can_attach world local true false || left_behind world local)
  unfolding check_node_can_attach compare_systems compare_timelines
  check_node_can_attach-rewind local = ground arith
