-- ===== src/SharedState/Calls.antt =====
-- Sequences of calls on the shared memory: every function that changes it is a call.
use repmgr.Base.{ℕ, ◌≡◌, ◌≢◌, ℤ, ==ℤ_iff, Bool, Option, none, some, List, [], ◌∷◌, arith}
use repmgr.Nodes.{unknown_node_id}
use repmgr.SharedState.{
  TimestampTz, Shared, int32, store_local_node_id, set_local_node_id, get_local_node_id,
  standby_set_last_updated, set_upstream_last_seen, set_upstream_node_id, notify_follow_primary,
  reset_voting_status, set_repmgrd_pid, repmgrd_pause,
}

pub data Call : Type 0 where
  call_set_local_node_id : Option ℤ → Option (List ℕ) → Call
  call_standby_set_last_updated : TimestampTz → Call
  call_set_upstream_last_seen : TimestampTz → Option ℤ → Call
  call_set_upstream_node_id : Option ℤ → Call
  call_notify_follow_primary : Option ℤ → Call
  call_reset_voting_status : Call
  call_set_repmgrd_pid : Option ℤ → Option (List ℕ) → Call
  call_repmgrd_pause : Option Bool → Call

unfoldable pub perform : Call → Shared → Shared
unfolding set_local_node_id store_local_node_id standby_set_last_updated set_upstream_last_seen
    set_upstream_node_id notify_follow_primary reset_voting_status set_repmgrd_pid repmgrd_pause
perform (call_set_local_node_id id file) s = (set_local_node_id id file s).0
perform (call_standby_set_last_updated now) s = (standby_set_last_updated now s).0
perform (call_set_upstream_last_seen now id) s = (set_upstream_last_seen now id s).0
perform (call_set_upstream_node_id id) s = (set_upstream_node_id id s).0
perform (call_notify_follow_primary id) s = (notify_follow_primary id s).0
perform call_reset_voting_status s = (reset_voting_status s).0
perform (call_set_repmgrd_pid pid file) s = (set_repmgrd_pid pid file s).0
perform (call_repmgrd_pause pause) s = (repmgrd_pause pause s).0

unfoldable pub perform_all : List Call → Shared → Shared
perform_all [] s = s
perform_all (c ∷ cs) s = perform_all cs (perform c s)

-- The local node ID is set, to this value.
abbrev pub KnownAs : ℤ → Shared → Type 0
KnownAs id s = get_local_node_id s ≡ int32 id

perform-KnownAs :
    (id : ℤ) (c : Call) (s : Shared)
    → id ≢ unknown_node_id
    → KnownAs id s
    → KnownAs id (perform c s)
unfolding perform get_local_node_id
perform-KnownAs id (call_set_local_node_id none file) (some s) ne h = h
perform-KnownAs id (call_set_local_node_id (some i) file) (some s) ne h =
    ground (arith, ==ℤ_iff s.local_node_id unknown_node_id)
perform-KnownAs id (call_set_upstream_last_seen now none) (some s) ne h = h
perform-KnownAs id (call_set_upstream_node_id none) (some s) ne h = h
perform-KnownAs id (call_notify_follow_primary none) (some s) ne h = h
perform-KnownAs id (call_repmgrd_pause none) (some s) ne h = h
perform-KnownAs id c none ne h = absurd (cc h)
perform-KnownAs id c (some s) ne h = ground (arith, h)

-- Once the local node ID is set, no sequence of calls changes it; so the test of
-- `notify_follow_primary` and `reset_voting_status` that it is set still holds when they have given
-- up the shared lock and waited for the exclusive one.
pub perform_all-KnownAs :
    (id : ℤ) (cs : List Call) (s : Shared)
    → id ≢ unknown_node_id
    → KnownAs id s
    → KnownAs id (perform_all cs s)
unfolding perform_all
perform_all-KnownAs id [] s ne h = h
perform_all-KnownAs id (c ∷ cs) s ne h =
    perform_all-KnownAs id cs (perform c s) ne (perform-KnownAs id c s ne h)
