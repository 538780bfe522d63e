-- ===== src/Client/Switchover/Shutdown.antt =====
-- The end of the old primary in a switchover: the wait for its shutdown, and the wait of the local
-- node for the WAL it has written.
use repmgr.Base.{ℕ, zero, suc, Bool, true, false, Option, none, some, ltb, ◌==◌, if◌then◌else◌}
use repmgr.Nodes.{NodeStatus, node_status_down, node_status_unclean_shutdown, Lsn}
use repmgr.Client.Switchover.World.{SwitchoverWorld, PgPing, pqping_no_response, pqping_no_attempt}

-- How the wait ends: with the LSN of the last checkpoint, with an unclean shutdown that nothing
-- forces on, or without a shutdown.
pub data ShutdownResult : Type 0 where
  shut_down : Lsn → ShutdownResult
  unclean not_confirmed : ShutdownResult

abbrev pub is_silent : PgPing → Bool
is_silent pqping_no_response = true
is_silent pqping_no_attempt = true
is_silent _ = false

-- An output without an LSN leaves the one of an earlier round.
abbrev pub parsed_lsn : Lsn → Option Lsn → Lsn
parsed_lsn lsn none = lsn
parsed_lsn lsn (some parsed) = parsed

-- The result of one round, and the LSN it leaves.
pub data ShutdownRound : Type 0 where
  finished : ShutdownResult → ShutdownRound
  waits : Lsn → ShutdownRound

unfoldable pub check_shutdown_status : Bool → NodeStatus → Lsn → ShutdownRound
check_shutdown_status force node_status_down lsn =
    if lsn == 0 then waits lsn else finished (shut_down lsn)
check_shutdown_status force node_status_unclean_shutdown lsn =
    if force then finished (shut_down lsn) else finished unclean
check_shutdown_status force status lsn = waits lsn

-- The command on the host may fail.
unfoldable pub check_answer : Bool → Lsn → Option (NodeStatus × Option Lsn) → ShutdownRound
unfolding check_shutdown_status
check_answer force lsn none = waits lsn
check_answer force lsn (some (status, parsed)) =
    check_shutdown_status force status (parsed_lsn lsn parsed)

unfoldable pub check_shutdown : Bool → SwitchoverWorld → ℕ → Lsn → ShutdownRound
unfolding check_answer
check_shutdown force w i lsn =
    if is_silent (w.ping i) then check_answer force lsn (w.shutdown_status i) else waits lsn

abbrev pub unless_finished : ShutdownRound → (Lsn → ShutdownResult) → ShutdownResult
unless_finished (finished result) later = result
unless_finished (waits left) later = later left

-- The rounds from `i` on, of which `rounds` are left.
unfoldable pub await_shutdown : Bool → SwitchoverWorld → ℕ → ℕ → Lsn → ShutdownResult
unfolding check_shutdown
await_shutdown force w zero i lsn = not_confirmed
await_shutdown force w (suc rounds) i lsn =
    unless_finished (check_shutdown force w i lsn)
      (λ left. await_shutdown force w rounds (suc i) left)

-- The LSN that the local node has received, where an answer is missing the one of before.
unfoldable pub await_wal : SwitchoverWorld → Lsn → ℕ → ℕ → Lsn → Lsn
await_wal w target zero i received = received
await_wal w target (suc rounds) i received =
    let now = parsed_lsn received (w.receive_lsn i) in
    let later = await_wal w target rounds (suc i) now in if ltb now target then later else now
