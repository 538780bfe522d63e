-- ===== src/SharedState/History.antt =====
-- The abstract view of the failover functions: what `get_new_primary` returns is a function of the
-- history of calls.
use mathlib.Core.Option.{some-injective}
use repmgr.Base.{
  ◌≡◌, refl, ap, ◌∙◌, ℤ, ◌==ℤ◌, Option, none, some, List, [], ◌∷◌, if◌then◌else◌, arith,
}
use repmgr.Nodes.{unknown_node_id}
use repmgr.SharedState.{
  SharedState, Shared, int32, repmgr_shmem_startup, get_local_node_id, get_new_primary,
}
use repmgr.SharedState.Calls.{
  Call, call_set_local_node_id, call_set_upstream_last_seen, call_set_upstream_node_id,
  call_notify_follow_primary, call_reset_voting_status, call_repmgrd_pause, perform, perform_all,
}

-- Who the node is, and the notification that waits to be read.
pub record Mailbox : Type 0 where
  pub owner : ℤ
  pub letter : ℤ

-- The first ID that is no "unknown" is the owner's for good. Only a node that knows its ID receives
-- letters; a new one replaces the old, and a reset throws it away.
abbrev pub deliver : Call → Mailbox → Mailbox
deliver (call_set_local_node_id (some id) file) m = record m {
  owner = if m.owner ==ℤ unknown_node_id then id else m.owner;
}
deliver (call_notify_follow_primary (some id)) m = record m {
  letter = if m.owner ==ℤ unknown_node_id then m.letter else id;
}
deliver call_reset_voting_status m = record m {
  letter = if m.owner ==ℤ unknown_node_id then m.letter else unknown_node_id;
}
deliver _ m = m

abbrev pub deliver_all : List Call → Mailbox → Mailbox
deliver_all [] m = m
deliver_all (c ∷ cs) m = deliver_all cs (deliver c m)

abbrev view : SharedState → Mailbox
view s = record {
  owner = s.local_node_id;
  letter = if s.follow_new_primary then s.candidate_node_id else unknown_node_id;
}

abbrev viewed : Shared → Option Mailbox
viewed none = none
viewed (some s) = some (view s)

-- Each call does to the view of the shared memory what it does to the mailbox.
viewed-perform :
    (c : Call) (s : SharedState) → viewed (perform c (some s)) ≡ some (deliver c (view s))
unfolding perform
viewed-perform (call_set_local_node_id none file) s = refl
viewed-perform (call_set_local_node_id (some id) file) s = ground arith
viewed-perform (call_set_upstream_last_seen now none) s = refl
viewed-perform (call_set_upstream_node_id none) s = refl
viewed-perform (call_notify_follow_primary none) s = refl
viewed-perform (call_repmgrd_pause none) s = refl
viewed-perform c s = ground arith

viewed-perform_all :
    (cs : List Call) (s : Shared) (m : Mailbox)
    → viewed s ≡ some m
    → viewed (perform_all cs s) ≡ some (deliver_all cs m)
unfolding perform_all
viewed-perform_all [] s m h = h
viewed-perform_all (c ∷ cs) none m h = absurd (cc h)
viewed-perform_all (c ∷ cs) (some s) m h =
    viewed-perform_all cs (perform c (some s)) (deliver c m)
      (viewed-perform c s ∙ ap (λ m'. some (deliver c m')) (some-injective (view s) m h))

results_of_view :
    (s : Shared) (m : Mailbox)
    → viewed s ≡ some m
    → (get_local_node_id s ≡ int32 m.owner) × (get_new_primary s ≡ int32 m.letter)
unfolding get_local_node_id get_new_primary
results_of_view none m h = absurd (cc h)
results_of_view (some s) m h = ground (arith, h)

abbrev pub new_mailbox : Mailbox
new_mailbox = record { owner = unknown_node_id; letter = unknown_node_id }

-- After any sequence of calls on new shared memory, `get_local_node_id` returns the owner and
-- `get_new_primary` the letter of the mailbox to which the same calls were delivered: the calls
-- about the upstream, the process and the pause flag do not interfere with the notifications.
pub shared_state_refines_Mailbox :
    (cs : List Call)
    → let s = perform_all cs (some repmgr_shmem_startup) in
      (get_local_node_id s ≡ int32 (deliver_all cs new_mailbox).owner)
      × (get_new_primary s ≡ int32 (deliver_all cs new_mailbox).letter)
shared_state_refines_Mailbox cs = results_of_view _ _ (
    viewed-perform_all cs (some repmgr_shmem_startup) new_mailbox
      (unfold repmgr_shmem_startup in refl))
