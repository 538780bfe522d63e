-- ===== src/Client/Switchover/Reached.antt =====
-- What has happened before a step of a switchover is reached.
use repmgr.Base.{
  ◌≡◌, ◌⊎◌, refl, sym, ◌∙◌, ℕ, ◌<◌, ◌≤◌, Bool, true, false, not, ◌&&◌, ◌||◌, inl, inr, Bool-cases,
  List, [], ◌∷◌, ◌++◌, ltb, leb, ◌==◌, if◌then◌else◌, arith,
}
use repmgr.Nodes.{Lsn}
use repmgr.Client.Promote.Siblings.{Sibling}
use repmgr.Client.Promote.Run.{Promotion, err_db_conn, promote_internal}
use repmgr.Client.Switchover.World.{
  SwitchoverOptions, SwitchoverWorld, SwitchoverAction, stop_primary, Switchover, ends, after,
  err_switchover_fail,
}
use repmgr.Client.Switchover.Repmgrd.{pause_repmgrds}
use repmgr.Client.Switchover.Finish.{issue_checkpoint, finish_switchover}
use repmgr.Client.Switchover.Shutdown.{
  ShutdownResult, shut_down, unclean, not_confirmed, await_shutdown, await_wal,
}
use repmgr.Client.Switchover.Stopped.{WasShutDown, WasReceived, Shown, shutdown-Shown, wal-received}
use repmgr.Client.Switchover.Run.{
  promotes_over, if_promoted, promote_and_finish, take_over, stop_and_take_over, list_actions,
  siblings, slots, switch_over, do_standby_switchover,
}
use repmgr.Client.Switchover.Order.{rank, AllAt, pause_repmgrds-AllAt}
use repmgr.Client.Switchover.Cases.{if-cases, do_standby_switchover-cases}

-- There is an action of the place `n` or a later one.
abbrev pub reaches : ℕ → List SwitchoverAction → Bool
reaches n [] = false
reaches n (action ∷ rest) = let later = reaches n rest in leb n (rank action) || later

pub reaches-append :
    (n r : ℕ) (l m : List SwitchoverAction) → r < n → AllAt r l → reaches n (l ++ m) ≡ reaches n m
reaches-append n r [] m below t = refl
reaches-append n r (action ∷ rest) m below (first, t) =
    ground (arith, below, first, reaches-append n r rest m below t)

-- The test before an end has not ended the run.
pub not_ended :
    (n : ℕ) (b : Bool) (code : ℕ) (s : Switchover)
    → reaches n (if b then ends code [] else s).actions ≡ true
    → (b ≡ false) × (reaches n s.actions ≡ true)
not_ended n true code s h = cc h
not_ended n false code s h = (refl, h)

-- The primary was shut down, and the local node either has its WAL or is promoted without.
abbrev pub ReadyToPromote : SwitchoverOptions → SwitchoverWorld → Type 0
ReadyToPromote o w =
    (lsn : Lsn) × WasShutDown o.options.force w lsn
    × ((lsn ≡ 0) ⊎ (WasReceived w lsn ⊎ (o.always_promote ≡ true)))

module _ (o : SwitchoverOptions) (w : SwitchoverWorld) where
  has_wal :
      (lsn : Lsn)
      → (ltb (await_wal w lsn w.wal_receive_check_timeout 0 0) lsn && not o.always_promote) ≡ false
      → (lsn ≡ 0) ⊎ (WasReceived w lsn ⊎ (o.always_promote ≡ true))
  has_wal lsn h = elim (Bool-cases o.always_promote) [
    | inl always ↦ inr (inr always)
    | inr only_received ↦ elim (Bool-cases (lsn == 0)) [
      | inl zero ↦ inl (ground (arith, zero))
      | inr positive ↦
          let enough =
            wal-received w lsn (ground (arith, positive)) (ground (arith, h, only_received)) in
          inr (inl enough)
    ]
  ]

  take_over-ReadyToPromote :
      (l : List Sibling) (r : ShutdownResult)
      → Shown o.options.force w r
      → reaches 2 (take_over o w l r).actions ≡ true
      → ReadyToPromote o w
  unfolding take_over promote_and_finish
  take_over-ReadyToPromote l unclean shown h = cc h
  take_over-ReadyToPromote l not_confirmed shown h = cc h
  take_over-ReadyToPromote l (shut_down lsn) shown h =
      let received = await_wal w lsn w.wal_receive_check_timeout 0 0 in
      let connected =
        not_ended 2 (not w.local_connection_ok && not w.local_reconnects) err_db_conn
          (promote_and_finish o w l received lsn) h in
      let promoted : Promotion = promote_internal (promotes_over o w) [] in
      let next = after (issue_checkpoint o w) (finish_switchover o w l received lsn) in
      let started =
        not_ended 2 (ltb received lsn && not o.always_promote) err_switchover_fail
          (if_promoted promoted next) connected.1 in
      (lsn, shown, has_wal lsn started.0)

  pub stop_and_take_over-reaches :
      (n : ℕ) (l : List Sibling)
      → 2 ≤ n
      → reaches n (stop_and_take_over o w l).actions
        ≡ reaches n
            (take_over o w l
              (await_shutdown o.options.force w w.shutdown_check_timeout 0 0)).actions
  unfolding stop_and_take_over rank
  stop_and_take_over-reaches n l late =
      let stopped = await_shutdown o.options.force w w.shutdown_check_timeout 0 0 in
      reaches-append n 0 (pause_repmgrds o w) (stop_primary ∷ (take_over o w l stopped).actions)
        (omega (arith, late)) (pause_repmgrds-AllAt o w)
      ∙ reaches-append n 1 (stop_primary ∷ []) (take_over o w l stopped).actions
          (omega (arith, late)) (refl, tt)

  stop_and_take_over-ReadyToPromote :
      (l : List Sibling) → reaches 2 (stop_and_take_over o w l).actions ≡ true → ReadyToPromote o w
  stop_and_take_over-ReadyToPromote l h =
      take_over-ReadyToPromote l (await_shutdown o.options.force w w.shutdown_check_timeout 0 0)
        (shutdown-Shown o.options.force w) (sym (stop_and_take_over-reaches 2 l (omega arith)) ∙ h)

  -- The local node is promoted only after the primary was found shut down within the timeout, by
  -- its host, while it did not answer: cleanly, or uncleanly with "--force". The local node has
  -- then received all WAL up to the last checkpoint within the other timeout, unless
  -- "--always-promote" is given or that LSN is not known, which a clean shutdown excludes.
  pub do_standby_switchover-ReadyToPromote :
      reaches 2 (do_standby_switchover o w).actions ≡ true → ReadyToPromote o w
  unfolding switch_over list_actions rank
  do_standby_switchover-ReadyToPromote =
      do_standby_switchover-cases (λ s. reaches 2 s.actions ≡ true → ReadyToPromote o w)
        (λ code h. cc h) o w
        (if-cases (λ s. reaches 2 s.actions ≡ true → ReadyToPromote o w) o.options.dry_run
          (list_actions (slots o w).dry_run_success)
          (stop_and_take_over o w (siblings o w).sibling_nodes) (λ h. cc h)
          (λ real. stop_and_take_over-ReadyToPromote (siblings o w).sibling_nodes))
