-- ===== src/Election/Follow.antt =====
-- `check_node_can_follow` of repmgrd-physical.c: whether the local node can attach to another.
use repmgr.Base.{ℕ, ◌+◌, Bool, true, false, Option, none, some, ltb, leb, ◌==◌, ◌||◌, if◌then◌else◌}
use repmgr.Nodes.{Lsn}

pub record SystemIdentification : Type 0 where
  pub system_identifier : ℕ
  pub timeline : ℕ

-- The answers of `IDENTIFY_SYSTEM` on both nodes (`none`: no replication connection, or no
-- answer), the target's current LSN, and the end of the given timeline in the target's history.
pub record FollowWorld : Type 0 where
  pub local_connects : Bool
  pub local_identification : Option SystemIdentification
  pub target_connects : Bool
  pub target_identification : Option SystemIdentification
  pub target_current_lsn : Lsn
  pub timeline_end : ℕ → Option Lsn

abbrev pub invalid_lsn : Lsn
invalid_lsn = 0

-- The comparison of timelines and positions, once both systems are identified.
unfoldable pub can_follow_on :
    FollowWorld → Lsn → SystemIdentification → SystemIdentification → Bool
can_follow_on world local_xlogpos local target =
    if target.system_identifier == local.system_identifier
    then (if ltb target.timeline local.timeline
        then false
        else if target.timeline == local.timeline
        then (if local_xlogpos == invalid_lsn || world.target_current_lsn == invalid_lsn
            then false
            else leb local_xlogpos world.target_current_lsn)
        else elim (world.timeline_end (local.timeline + 1)) [
          | none ↦ false
          | some end ↦ if ltb end local_xlogpos then false else true
        ])
    else false

unfoldable pub identified :
    FollowWorld → Lsn → Option SystemIdentification → Option SystemIdentification → Bool
unfolding can_follow_on
identified world local_xlogpos none target = false
identified world local_xlogpos (some local) none = false
identified world local_xlogpos (some local) (some target) =
    can_follow_on world local_xlogpos local target

unfoldable pub check_node_can_follow : FollowWorld → Lsn → Bool
unfolding identified
check_node_can_follow world local_xlogpos =
    if world.local_connects
    then (if world.target_connects
        then identified world local_xlogpos world.local_identification world.target_identification
        else false)
    else false
