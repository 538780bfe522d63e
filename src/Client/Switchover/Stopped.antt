-- ===== src/Client/Switchover/Stopped.antt =====
-- What the waits of a switchover have seen when they end.
use repmgr.Base.{
  ◌≡◌, refl, ℕ, zero, suc, ◌+◌, ◌<◌, ◌≤◌, Bool, true, false, not, inl, inr, Bool-cases, Option,
  none, some, ltb, ◌==◌, if◌then◌else◌, arith,
}
use repmgr.Nodes.{
  NodeStatus, node_status_unknown, node_status_up, node_status_shutting_down, node_status_down,
  node_status_unclean_shutdown, node_status_rejected, Lsn,
}
use repmgr.Client.Switchover.World.{SwitchoverWorld}
use repmgr.Client.Switchover.Shutdown.{
  ShutdownResult, shut_down, unclean, not_confirmed, is_silent, parsed_lsn, ShutdownRound, finished,
  waits, check_shutdown_status, check_answer, check_shutdown, unless_finished, await_shutdown,
  await_wal,
}

-- The status of a server that is shut down with its last checkpoint at `lsn`: cleanly and with an
-- LSN, or uncleanly where this is forced.
abbrev pub is_stopped : Bool → NodeStatus → Lsn → Bool
is_stopped force node_status_down lsn = not (lsn == 0)
is_stopped force node_status_unclean_shutdown lsn = force
is_stopped force status lsn = false

-- In some round within the timeout the primary does not answer, and its host says that it is shut
-- down, with the LSN `lsn` where it gives one.
abbrev pub WasShutDown : Bool → SwitchoverWorld → Lsn → Type 0
WasShutDown force w lsn =
    (i : ℕ) × (status : NodeStatus) × (parsed : Option Lsn) × (before : Lsn) × (i
      < w.shutdown_check_timeout)
    × (is_silent (w.ping i) ≡ true)
    × (w.shutdown_status i ≡ some (status, parsed))
    × (lsn ≡ parsed_lsn before parsed)
    × (is_stopped force status lsn ≡ true)

-- The local node has said in some round within the timeout that it has received WAL up to `target`.
abbrev pub WasReceived : SwitchoverWorld → Lsn → Type 0
WasReceived w target =
    (i : ℕ) × (received : Lsn) × (i < w.wal_receive_check_timeout)
    × (w.receive_lsn i ≡ some received)
    × (target ≤ received)

module _ (force : Bool) (w : SwitchoverWorld) where
  abbrev pub Shown : ShutdownResult → Type 0
  Shown (shut_down lsn) = WasShutDown force w lsn
  Shown unclean = Unit
  Shown not_confirmed = Unit

  abbrev RoundShown : ShutdownRound → Type 0
  RoundShown (finished result) = Shown result
  RoundShown (waits lsn) = Unit

  if-Shown :
      (b : Bool) (x y : ShutdownRound)
      → (b ≡ true → RoundShown x)
      → (b ≡ false → RoundShown y)
      → RoundShown (if b then x else y)
  if-Shown true x y h k = h refl
  if-Shown false x y h k = k refl

  check_shutdown_status-stopped :
      (status : NodeStatus) (lsn : Lsn)
      → (is_stopped force status lsn ≡ true → Shown (shut_down lsn))
      → RoundShown (check_shutdown_status force status lsn)
  unfolding check_shutdown_status
  check_shutdown_status-stopped node_status_down lsn h =
      if-Shown (lsn == 0) (waits lsn) (finished (shut_down lsn)) (λ unknown. tt)
        (λ known. h (ground (arith, known)))
  check_shutdown_status-stopped node_status_unclean_shutdown lsn h =
      if-Shown force (finished (shut_down lsn)) (finished unclean) h (λ unforced. tt)
  check_shutdown_status-stopped node_status_unknown lsn h = tt
  check_shutdown_status-stopped node_status_up lsn h = tt
  check_shutdown_status-stopped node_status_shutting_down lsn h = tt
  check_shutdown_status-stopped node_status_rejected lsn h = tt

  check_answer-Shown :
      (i : ℕ) (lsn : Lsn) (answer : Option (NodeStatus × Option Lsn))
      → i < w.shutdown_check_timeout
      → is_silent (w.ping i) ≡ true
      → w.shutdown_status i ≡ answer
      → RoundShown (check_answer force lsn answer)
  unfolding check_answer
  check_answer-Shown i lsn none early silent e = tt
  check_answer-Shown i lsn (some (status, parsed)) early silent e =
      check_shutdown_status-stopped status (parsed_lsn lsn parsed)
        (λ h. (i, status, parsed, lsn, early, silent, e, refl, h))

  check_shutdown-Shown :
      (i : ℕ) (lsn : Lsn) → i < w.shutdown_check_timeout → RoundShown (check_shutdown force w i lsn)
  unfolding check_shutdown
  check_shutdown-Shown i lsn early =
      if-Shown (is_silent (w.ping i)) (check_answer force lsn (w.shutdown_status i)) (waits lsn)
        (λ silent. check_answer-Shown i lsn (w.shutdown_status i) early silent refl) (λ answers. tt)

  unless_finished-Shown :
      (round : ShutdownRound) (later : Lsn → ShutdownResult)
      → RoundShown round
      → ((lsn : Lsn) → Shown (later lsn))
      → Shown (unless_finished round later)
  unless_finished-Shown (finished result) later now h = now
  unless_finished-Shown (waits lsn) later now h = h lsn

  await_shutdown-Shown :
      (rounds i : ℕ) (lsn : Lsn)
      → i + rounds ≤ w.shutdown_check_timeout
      → Shown (await_shutdown force w rounds i lsn)
  unfolding await_shutdown
  await_shutdown-Shown zero i lsn h = tt
  await_shutdown-Shown (suc rounds) i lsn h =
      unless_finished-Shown (check_shutdown force w i lsn)
        (λ left. await_shutdown force w rounds (suc i) left)
        (check_shutdown-Shown i lsn (omega (arith, h)))
        (λ left. await_shutdown-Shown rounds (suc i) left (omega (arith, h)))

  pub shutdown-Shown : Shown (await_shutdown force w w.shutdown_check_timeout 0 0)
  shutdown-Shown = await_shutdown-Shown w.shutdown_check_timeout 0 0 (omega arith)

module _ (w : SwitchoverWorld) (target : Lsn) where
  parsed_lsn-received :
      (i : ℕ) (received : Lsn) (answer : Option Lsn)
      → i < w.wal_receive_check_timeout
      → w.receive_lsn i ≡ answer
      → (target ≤ received → WasReceived w target)
      → target ≤ parsed_lsn received answer
      → WasReceived w target
  parsed_lsn-received i received none early e before h = before h
  parsed_lsn-received i received (some now) early e before h = (i, now, early, e, h)

  await_wal-received :
      (rounds i : ℕ) (received : Lsn)
      → i + rounds ≤ w.wal_receive_check_timeout
      → (target ≤ received → WasReceived w target)
      → target ≤ await_wal w target rounds i received
      → WasReceived w target
  unfolding await_wal
  await_wal-received zero i received early before h = before h
  await_wal-received (suc rounds) i received early before h =
      let now = parsed_lsn received (w.receive_lsn i) in
      let seen =
        parsed_lsn-received i received (w.receive_lsn i) (omega (arith, early)) refl before in
      elim (Bool-cases (ltb now target)) [
        | inl short ↦
            await_wal-received rounds (suc i) now (omega (arith, early)) seen
              (ground (arith, h, short))
        | inr enough ↦ seen (ground (arith, enough))
      ]

  pub wal-received :
      1 ≤ target
      → target ≤ await_wal w target w.wal_receive_check_timeout 0 0
      → WasReceived w target
  wal-received positive h =
      await_wal-received w.wal_receive_check_timeout 0 0 (omega arith)
        (λ none. absurd (omega (arith, positive, none))) h
