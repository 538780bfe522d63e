-- ===== src/SharedState.antt =====
-- repmgr.c: the shared memory of the repmgr extension and the SQL functions on it. `shared_state`
-- is a pointer that may be null, so the state is an `Option`; a call returns the new state and the
-- function's SQL result. The LWLock makes each call atomic.
pub mod StateFile
pub mod Calls
pub mod History
pub mod Pause
use repmgr.Base.{
  ℕ, ◌+◌, ◌%◌, ℤ, pos, negsuc, ◌==ℤ◌, to_int32, Bool, true, false, Option, none, some, List, [],
  ◌∷◌, ◌++◌, take, length, ltb, ◌==◌, not, ◌&&◌, if◌then◌else◌,
}
use repmgr.Nodes.{unknown_node_id, unknown_pid}
use repmgr.Templates.{max_pg_path}
use StateFile.{scan_state_file, print_state_file}

pub data NodeVotingStatus : Type 0 where
  vs_unknown vs_no_vote vs_vote_request_received vs_vote_initiated : NodeVotingStatus

-- A timestamp counts microseconds from the PostgreSQL epoch on.
abbrev pub TimestampTz : Type 0
TimestampTz = ℕ

-- `POSTGRES_EPOCH_JDATE`, the value of `upstream_last_seen` that means "never".
abbrev pub postgres_epoch_jdate : TimestampTz
postgres_epoch_jdate = 2451545

pub record SharedState : Type 0 where
  pub last_updated : TimestampTz
  pub local_node_id : ℤ
  pub repmgrd_pid : ℤ
  pub repmgrd_pidfile : List ℕ
  pub repmgrd_paused : Bool
  pub upstream_node_id : ℤ
  pub upstream_last_seen : TimestampTz
  pub voting_status : NodeVotingStatus
  pub current_electoral_term : ℕ
  pub candidate_node_id : ℤ
  pub follow_new_primary : Bool

-- An SQL result; `raised` is an error, `overrun` a read beyond the end of a buffer.
pub data Datum : Type 0 where
  null void raised overrun : Datum
  int32 : ℤ → Datum
  timestamptz : TimestampTz → Datum
  boolean : Bool → Datum
  text : List ℕ → Datum

-- The zeroed memory that `ShmemInitStruct` finds, initialised.
unfoldable pub repmgr_shmem_startup : SharedState
repmgr_shmem_startup = record {
  last_updated = 0;
  local_node_id = unknown_node_id;
  repmgrd_pid = unknown_pid;
  repmgrd_pidfile = [];
  repmgrd_paused = false;
  upstream_node_id = unknown_node_id;
  upstream_last_seen = postgres_epoch_jdate;
  voting_status = vs_no_vote;
  current_electoral_term = 0;
  candidate_node_id = unknown_node_id;
  follow_new_primary = false;
}

abbrev pub Shared : Type 0
Shared = Option SharedState

-- The second argument is the content of the state file, if it exists.
unfoldable pub store_local_node_id : ℤ → ℤ × ℤ → SharedState → SharedState
store_local_node_id local_node_id (stored_node_id, paused) s =
    let id = if s.local_node_id ==ℤ unknown_node_id then local_node_id else s.local_node_id in
    record s {
      local_node_id = id;
      repmgrd_paused =
          if stored_node_id ==ℤ id
          then (if paused ==ℤ pos 0
              then false
              else if paused ==ℤ pos 1
              then true
              else s.repmgrd_paused)
          else s.repmgrd_paused;
    }

unfoldable pub set_local_node_id : Option ℤ → Option (List ℕ) → Shared → Shared × Datum
set_local_node_id arg file none = (none, null)
set_local_node_id none file (some s) = (some s, null)
set_local_node_id (some id) file (some s) =
    (some (store_local_node_id id (scan_state_file file) s), void)

unfoldable pub get_local_node_id : Shared → Datum
get_local_node_id none = null
get_local_node_id (some s) = int32 s.local_node_id

unfoldable pub standby_set_last_updated : TimestampTz → Shared → Shared × Datum
standby_set_last_updated now none = (none, null)
standby_set_last_updated now (some s) = (some (record s { last_updated = now }), timestamptz now)

unfoldable pub standby_get_last_updated : Shared → Datum
standby_get_last_updated none = null
standby_get_last_updated (some s) = timestamptz s.last_updated

unfoldable pub set_upstream_last_seen : TimestampTz → Option ℤ → Shared → Shared × Datum
set_upstream_last_seen now arg none = (none, void)
set_upstream_last_seen now none (some s) = (some s, null)
set_upstream_last_seen now (some id) (some s) =
    (some (record s { upstream_last_seen = now; upstream_node_id = id }), void)

-- `timestamp_difference` is the seconds part of PostgreSQL's `TimestampDifference`.
unfoldable pub get_upstream_last_seen :
    (TimestampTz → TimestampTz → ℕ) → TimestampTz → Shared → Datum
get_upstream_last_seen timestamp_difference now none = int32 (negsuc 0)
get_upstream_last_seen timestamp_difference now (some s) =
    if s.upstream_last_seen == postgres_epoch_jdate
    then int32 (negsuc 0)
    else int32 (to_int32 (timestamp_difference s.upstream_last_seen now))

unfoldable pub get_upstream_node_id : Shared → Datum
get_upstream_node_id none = null
get_upstream_node_id (some s) = int32 s.upstream_node_id

unfoldable pub set_upstream_node_id : Option ℤ → Shared → Shared × Datum
set_upstream_node_id arg none = (none, null)
set_upstream_node_id none (some s) = (some s, null)
set_upstream_node_id (some id) (some s) =
    if s.local_node_id ==ℤ id
    then (some s, raised)
    else (some (record s { upstream_node_id = id }), void)

unfoldable pub notify_follow_primary : Option ℤ → Shared → Shared × Datum
notify_follow_primary arg none = (none, void)
notify_follow_primary none (some s) = (some s, void)
notify_follow_primary (some id) (some s) =
    if s.local_node_id ==ℤ unknown_node_id
    then (some s, void)
    else (some (record s { candidate_node_id = id; follow_new_primary = true }), void)

unfoldable pub get_new_primary : Shared → Datum
get_new_primary none = int32 unknown_node_id
get_new_primary (some s) =
    int32 (if s.follow_new_primary then s.candidate_node_id else unknown_node_id)

unfoldable pub reset_voting_status : Shared → Shared × Datum
reset_voting_status none = (none, null)
reset_voting_status (some s) = if s.local_node_id ==ℤ unknown_node_id then (some s, void) else (
  some (record s {
    voting_status = vs_no_vote;
    candidate_node_id = unknown_node_id;
    follow_new_primary = false;
  }),
  void,
)

unfoldable pub get_repmgrd_pid : Shared → Datum
get_repmgrd_pid none = null
get_repmgrd_pid (some s) = int32 s.repmgrd_pid

unfoldable pub get_repmgrd_pidfile : Shared → Datum
get_repmgrd_pidfile none = null
get_repmgrd_pidfile (some s) = elim s.repmgrd_pidfile [
  | [] ↦ null
  | c ∷ cs ↦ if ltb (length s.repmgrd_pidfile) max_pg_path then text s.repmgrd_pidfile else overrun
]

abbrev pidfile_arg : ℤ → Option (List ℕ) → List ℕ
pidfile_arg pid none = []
pidfile_arg pid (some file) = if pid ==ℤ unknown_pid then [] else take max_pg_path file

abbrev pid_arg : Option ℤ → ℤ
pid_arg none = unknown_pid
pid_arg (some pid) = pid

unfoldable pub set_repmgrd_pid : Option ℤ → Option (List ℕ) → Shared → Shared × Datum
set_repmgrd_pid pid file none = (none, void)
set_repmgrd_pid pid file (some s) = (
  some (record s { repmgrd_pid = pid_arg pid; repmgrd_pidfile = pidfile_arg (pid_arg pid) file }),
  void,
)

-- `alive` is whether `kill(pid, 0)` returns 0.
unfoldable pub repmgrd_is_running : (ℤ → Bool) → Shared → Datum
repmgrd_is_running alive none = null
repmgrd_is_running alive (some s) =
    if s.repmgrd_pid ==ℤ unknown_pid then boolean false else boolean (alive s.repmgrd_pid)

-- The second result is what is written to the state file.
unfoldable pub repmgrd_pause : Option Bool → Shared → Shared × Datum × Option (List ℕ)
repmgrd_pause arg none = (none, null, none)
repmgrd_pause none (some s) = (some s, null, none)
repmgrd_pause (some pause) (some s) = (
  some (record s { repmgrd_paused = pause }),
  void,
  some (print_state_file s.local_node_id pause),
)

unfoldable pub repmgrd_is_paused : Shared → Datum
repmgrd_is_paused none = null
repmgrd_is_paused (some s) = boolean s.repmgrd_paused
