-- ===== src/Client/Switchover/CleanStop.antt =====
-- When the local node is promoted, in terms of the control file of the primary.
use repmgr.Base.{
  ◌≡◌, ◌⊎◌, refl, sym, ◌∙◌, ℕ, ◌<◌, Bool, true, false, not, ◌&&◌, inl, inr, Option, none, some,
  ◌==◌, if◌then◌else◌, arith,
}
use mathlib.Core.Path.{subst}
use repmgr.Nodes.{
  NodeStatus, node_status_unknown, node_status_up, node_status_shutting_down, node_status_down,
  node_status_unclean_shutdown, node_status_rejected, Lsn,
}
use repmgr.Client.Rejoin.Run.{DbState}
use repmgr.Client.Switchover.World.{SwitchoverOptions, SwitchoverWorld}
use repmgr.Client.Switchover.Shutdown.{parsed_lsn}
use repmgr.Client.Switchover.Stopped.{is_stopped, WasReceived}
use repmgr.Client.Switchover.Run.{do_standby_switchover}
use repmgr.Client.Switchover.Reached.{reaches, do_standby_switchover-ReadyToPromote}
use repmgr.Client.Switchover.ControlFile.{
  ServerState, print_node_status, was_shut_down, state_status, shutdown_status_of, is_down_status,
  node_status_output, parse_state, parse_node_status,
}

-- A status that the switchover does not read as it is printed is read as unknown.
abbrev readable : NodeStatus → NodeStatus
readable node_status_up = node_status_unknown
readable node_status_shutting_down = node_status_unknown
readable node_status_rejected = node_status_unknown
readable status = status

parse_state-print_node_status :
    (status : NodeStatus) → parse_state (print_node_status status) ≡ readable status
unfolding parse_state print_node_status
parse_state-print_node_status node_status_unknown = refl
parse_state-print_node_status node_status_up = refl
parse_state-print_node_status node_status_shutting_down = refl
parse_state-print_node_status node_status_down = refl
parse_state-print_node_status node_status_unclean_shutdown = refl
parse_state-print_node_status node_status_rejected = refl

-- The control file is that of a server that was shut down cleanly, after a checkpoint.
abbrev pub is_clean_state : Option DbState → Bool
is_clean_state none = false
is_clean_state (some state) = was_shut_down state

abbrev clean : ServerState → Bool
clean s = is_clean_state s.db_state && not (s.latest_checkpoint == 0)

-- What an answer tells of the server, without "--force".
abbrev Tells : ServerState → Lsn → Option (NodeStatus × Option Lsn) → Type 0
Tells s before none = Unit
Tells s before (some (status, parsed)) =
    is_stopped false status (parsed_lsn before parsed) ≡ true
    → (clean s ≡ true) × (parsed_lsn before parsed ≡ s.latest_checkpoint)

shutdown_status_of-down :
    (s : ServerState) → is_down_status (shutdown_status_of s) ≡ true → clean s ≡ true
unfolding shutdown_status_of state_status
shutdown_status_of-down s h = ground (arith, h)

readable-Tells :
    (s : ServerState) (before : Lsn) (status : NodeStatus)
    → (is_down_status status ≡ true → clean s ≡ true)
    → Tells s before
        (some (readable status, if is_down_status status then some s.latest_checkpoint else none))
readable-Tells s before node_status_down h k = (h refl, refl)
readable-Tells s before node_status_unknown h k = absurd (cc k)
readable-Tells s before node_status_up h k = absurd (cc k)
readable-Tells s before node_status_shutting_down h k = absurd (cc k)
readable-Tells s before node_status_unclean_shutdown h k = absurd (cc k)
readable-Tells s before node_status_rejected h k = absurd (cc k)

node_status_output-Tells :
    (s : ServerState) (before : Lsn)
    → Tells s before (some (parse_node_status (node_status_output s)))
unfolding node_status_output parse_node_status
node_status_output-Tells s before =
    let status = shutdown_status_of s in
    subst
      (λ read.
        Tells s before
          (some (read, if is_down_status status then some s.latest_checkpoint else none)))
      (sym (parse_state-print_node_status status))
      (readable-Tells s before status (shutdown_status_of-down s))

-- In a round within the timeout the control file of the primary is that of a clean shutdown, and
-- the local node has the WAL up to the checkpoint in it, or is promoted without.
abbrev pub CleanlyStopped : SwitchoverOptions → SwitchoverWorld → (ℕ → ServerState) → Type 0
CleanlyStopped o w servers =
    (i : ℕ) × (i < w.shutdown_check_timeout)
    × (is_clean_state (servers i).db_state ≡ true)
    × (WasReceived w (servers i).latest_checkpoint ⊎ (o.always_promote ≡ true))

both : (a b : Bool) → (a && not b) ≡ true → (a ≡ true) × (b ≡ false)
both a b h = (ground (arith, h), ground (arith, h))

module _ (o : SwitchoverOptions) (w : SwitchoverWorld) (servers : ℕ → ServerState) where
  known_wal :
      (lsn at : Lsn)
      → lsn ≡ at
      → (at == 0) ≡ false
      → (lsn ≡ 0) ⊎ (WasReceived w lsn ⊎ (o.always_promote ≡ true))
      → WasReceived w at ⊎ (o.always_promote ≡ true)
  known_wal lsn at same known (inl unknown) = absurd (ground (arith, same, known, unknown))
  known_wal lsn at same known (inr (inl received)) = inl (subst (WasReceived w) same received)
  known_wal lsn at same known (inr (inr always)) = inr always

  -- Where the answers on the shutdown of the primary are what "repmgr node status" prints there of
  -- the server's state in each round, and "--force" is not given: the local node is promoted only
  -- if in a round within the timeout the control file of the primary was that of a clean shutdown,
  -- and the local node has received all WAL up to the checkpoint in it, unless "--always-promote"
  -- is given.
  pub do_standby_switchover-CleanlyStopped :
      ((i : ℕ) → w.shutdown_status i ≡ some (parse_node_status (node_status_output (servers i))))
      → o.options.force ≡ false
      → reaches 2 (do_standby_switchover o w).actions ≡ true
      → CleanlyStopped o w servers
  do_standby_switchover-CleanlyStopped answers unforced promoted =
      let (lsn, (i, status, parsed, before, early, silent, e, named, stopped), wal) =
        do_standby_switchover-ReadyToPromote o w promoted in
      let tells =
        subst (Tells (servers i) before) (sym (answers i) ∙ e)
          (node_status_output-Tells (servers i) before) in
      let (cleanly, at) = tells (
        subst (λ l. is_stopped false status l ≡ true) named
          (subst (λ f. is_stopped f status lsn ≡ true) unforced stopped)) in
      let (shut, known) =
        both (is_clean_state (servers i).db_state) ((servers i).latest_checkpoint == 0) cleanly in
      (i, early, shut, known_wal lsn (servers i).latest_checkpoint (named ∙ at) known wal)
