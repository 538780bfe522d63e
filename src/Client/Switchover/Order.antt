-- ===== src/Client/Switchover/Order.antt =====
-- The order of the steps of a switchover.
use repmgr.Base.{
  ◌≡◌, refl, ℕ, ℤ, ◌≤◌, Bool, true, false, not, ◌&&◌, Option, none, some, List, [], ◌∷◌, ◌++◌, map,
  All, ltb, arith,
}
use repmgr.Nodes.{Lsn}
use repmgr.Client.Promote.Siblings.{Sibling, SiblingAction, sibling_nodes_follow}
use repmgr.Client.Promote.Run.{PromoteAction, Promotion, err_db_conn, promote_internal}
use repmgr.Client.Switchover.World.{
  SwitchoverOptions, SwitchoverWorld, SwitchoverAction, repmgrd_pause, list_stop_actions,
  stop_primary, promotion, checkpoint, node_rejoin, switchover_notification, sibling,
  drop_replication_slot, Switchover, after, err_switchover_fail,
}
use repmgr.Client.Switchover.Repmgrd.{
  RepmgrdInfo, pause_instances, unpause_instances, instances, pause_repmgrds, unpause_repmgrds,
}
use repmgr.Client.Switchover.Shutdown.{
  ShutdownResult, shut_down, unclean, not_confirmed, await_shutdown, await_wal,
}
use repmgr.Client.Switchover.Finish.{
  issue_checkpoint, rejoin, reconnects_to_remote, follow_up, clean_up, complete, finish_switchover,
}
use repmgr.Client.Switchover.Run.{
  promotes_over, if_returned, if_promoted, siblings, slots, promote_and_finish, take_over,
  stop_and_take_over, list_actions, switch_over, do_standby_switchover,
}
use repmgr.Client.Switchover.Cases.{ends_if-cases, if-cases, do_standby_switchover-cases}

-- The place of an action in a switchover.
unfoldable pub rank : SwitchoverAction → ℕ
rank (repmgrd_pause id true) = 0
rank list_stop_actions = 0
rank stop_primary = 1
rank (promotion action) = 2
rank (checkpoint connected) = 3
rank (node_rejoin rewinds) = 4
rank (switchover_notification success) = 5
rank (sibling action) = 6
rank drop_replication_slot = 7
rank (repmgrd_pause id false) = 8

-- The places from `n` on never go back.
abbrev pub Ascending : ℕ → List SwitchoverAction → Type 0
Ascending n [] = Unit
Ascending n (action ∷ rest) = (n ≤ rank action) × Ascending (rank action) rest

-- All have the place `r`.
abbrev pub AllAt : ℕ → List SwitchoverAction → Type 0
AllAt r = All (λ action. rank action ≡ r)

Ascending-later : (n m : ℕ) (l : List SwitchoverAction) → n ≤ m → Ascending m l → Ascending n l
Ascending-later n m [] h t = tt
Ascending-later n m (action ∷ rest) h (first, t) = (omega (arith, h, first), t)

-- Actions of one place before later ones.
Ascending-append :
    (n r : ℕ) (l m : List SwitchoverAction)
    → n ≤ r
    → AllAt r l
    → Ascending r m
    → Ascending n (l ++ m)
Ascending-append n r [] m h t later = Ascending-later n r m h later
Ascending-append n r (action ∷ rest) m h (first, t) later = (
  omega (arith, h, first),
  Ascending-append (rank action) r rest m (omega (arith, first)) t later,
)

pub AllAt-promotion : (l : List PromoteAction) → AllAt 2 (map promotion l)
unfolding rank
AllAt-promotion [] = tt
AllAt-promotion (action ∷ rest) = (refl, AllAt-promotion rest)

AllAt-sibling : (l : List SiblingAction) → AllAt 6 (map sibling l)
unfolding rank
AllAt-sibling [] = tt
AllAt-sibling (action ∷ rest) = (refl, AllAt-sibling rest)

pause_instances-AllAt : (d : Bool) (l : List RepmgrdInfo) → AllAt 0 (pause_instances d l)
unfolding pause_instances rank
pause_instances-AllAt d [] = tt
pause_instances-AllAt d (info ∷ rest) =
    let later = pause_instances-AllAt d rest in ground (arith, later)

unpause_instances-AllAt :
    (f : Bool) (reconnects : ℤ → Bool) (l : List RepmgrdInfo)
    → AllAt 8 (unpause_instances f reconnects l)
unfolding unpause_instances rank
unpause_instances-AllAt f reconnects [] = tt
unpause_instances-AllAt f reconnects (info ∷ rest) =
    let later = unpause_instances-AllAt f reconnects rest in ground (arith, later)

module _ (o : SwitchoverOptions) (w : SwitchoverWorld) where
  pub pause_repmgrds-AllAt : AllAt 0 (pause_repmgrds o w)
  unfolding pause_repmgrds
  pause_repmgrds-AllAt =
      ground (arith, pause_instances-AllAt o.options.dry_run (instances o w).infos)

  unpause_repmgrds-AllAt : AllAt 8 (unpause_repmgrds o w)
  unfolding unpause_repmgrds
  unpause_repmgrds-AllAt =
      ground
        (arith, unpause_instances-AllAt o.repmgrd_force_unpause w.reconnects (instances o w).infos)

  pub issue_checkpoint-AllAt : AllAt 3 (issue_checkpoint o w)
  unfolding issue_checkpoint rank
  issue_checkpoint-AllAt = ground arith

  pub clean_up-AllAt : (b : Bool) → AllAt 7 (clean_up w b)
  unfolding clean_up rank
  clean_up-AllAt b = ground arith

  pub follow_up-AllAt : (l : List Sibling) → AllAt 6 (follow_up o w l)
  unfolding follow_up
  follow_up-AllAt l =
      ground (arith, AllAt-sibling (sibling_nodes_follow w.local.witness_connects l))

  Ascending-self : (r : ℕ) (l : List SwitchoverAction) → AllAt r l → Ascending r l
  Ascending-self r [] t = tt
  Ascending-self r (action ∷ rest) (first, t) = (
    omega (arith, first),
    Ascending-later (rank action) r rest (omega (arith, first)) (Ascending-self r rest t),
  )

  complete-Ascending : (l : List Sibling) (b : Bool) → Ascending 3 (complete o w l b).actions
  unfolding complete rejoin rank
  complete-Ascending l b =
      let reachable = reconnects_to_remote w w.standby_reconnect_timeout 0 in
      let unpaused =
        Ascending-later 7 8 (unpause_repmgrds o w) (omega arith)
          (Ascending-self 8 (unpause_repmgrds o w) unpause_repmgrds-AllAt) in
      let cleaned =
        Ascending-append 6 7 (clean_up w reachable) (unpause_repmgrds o w) (omega arith)
          (clean_up-AllAt reachable) unpaused in
      (
        omega arith,
        (
          omega arith,
          Ascending-append 5 6 (follow_up o w l) (clean_up w reachable ++ unpause_repmgrds o w)
              (omega arith) (follow_up-AllAt l) cleaned,
        ),
      )

  finish_switchover-Ascending :
      (l : List Sibling) (m n : Lsn) → Ascending 3 (finish_switchover o w l m n).actions
  unfolding finish_switchover
  finish_switchover-Ascending l m n =
      ends_if-cases (λ s. Ascending 3 s.actions) (ltb m n && not o.force_rewind_used)
        err_switchover_fail (complete o w l (ltb m n)) tt (complete-Ascending l (ltb m n))

  if_returned-Ascending :
      (code : Option ℕ) (l : List SwitchoverAction) (s : Switchover)
      → AllAt 2 l
      → Ascending 2 s.actions
      → Ascending 1 (if_returned code l s).actions
  if_returned-Ascending none l s t h = Ascending-append 1 2 l s.actions (omega arith) t h
  if_returned-Ascending (some code) l s t h =
      Ascending-later 1 2 l (omega arith) (Ascending-self 2 l t)

  promote_and_finish_switchover-Ascending :
      (l : List Sibling) (m n : Lsn) → Ascending 1 (promote_and_finish o w l m n).actions
  unfolding promote_and_finish
  promote_and_finish_switchover-Ascending l m n =
      let promoted : Promotion = promote_internal (promotes_over o w) [] in
      let next = after (issue_checkpoint o w) (finish_switchover o w l m n) in
      ends_if-cases (λ s. Ascending 1 s.actions) (ltb m n && not o.always_promote)
        err_switchover_fail (if_promoted promoted next) tt
        (if_returned-Ascending promoted.exit_code (map promotion promoted.actions) next
          (AllAt-promotion promoted.actions)
          (Ascending-append 2 3 (issue_checkpoint o w) (finish_switchover o w l m n).actions
            (omega arith) issue_checkpoint-AllAt (finish_switchover-Ascending l m n)))

  take_over-Ascending :
      (l : List Sibling) (r : ShutdownResult) → Ascending 1 (take_over o w l r).actions
  unfolding take_over
  take_over-Ascending l unclean = tt
  take_over-Ascending l not_confirmed = tt
  take_over-Ascending l (shut_down target) =
      let received = await_wal w target w.wal_receive_check_timeout 0 0 in
      ends_if-cases (λ s. Ascending 1 s.actions)
        (not w.local_connection_ok && not w.local_reconnects) err_db_conn
        (promote_and_finish o w l received target) tt
        (promote_and_finish_switchover-Ascending l received target)

  stop_and_take_over-Ascending : (l : List Sibling) → Ascending 0 (stop_and_take_over o w l).actions
  unfolding stop_and_take_over rank
  stop_and_take_over-Ascending l =
      let stopped = await_shutdown o.options.force w w.shutdown_check_timeout 0 0 in
      Ascending-append 0 0 (pause_repmgrds o w) (stop_primary ∷ (take_over o w l stopped).actions)
        (omega arith) pause_repmgrds-AllAt (omega arith, take_over-Ascending l stopped)

  list_actions-Ascending : (d : Bool) → Ascending 0 (list_actions d).actions
  unfolding list_actions rank
  list_actions-Ascending d = (omega arith, tt)

  switch_over-Ascending : (l : List Sibling) (d : Bool) → Ascending 0 (switch_over o w l d).actions
  unfolding switch_over
  switch_over-Ascending l d =
      if-cases (λ s. Ascending 0 s.actions) o.options.dry_run (list_actions d)
        (stop_and_take_over o w l) (list_actions-Ascending d)
        (λ real. stop_and_take_over-Ascending l)

  -- Whatever the two nodes and the other servers answer, and at whatever point a run ends, its
  -- actions come in this order: pauses of repmgrd, the stop of the primary, the promotion of the
  -- local node, the checkpoint, the rejoin of the old primary, the notification, the commands to
  -- the siblings, the drop of the slot, and the ends of the pauses.
  pub do_standby_switchover-Ascending : Ascending 0 (do_standby_switchover o w).actions
  do_standby_switchover-Ascending =
      do_standby_switchover-cases (λ s. Ascending 0 s.actions) (λ code. tt) o w
        (switch_over-Ascending (siblings o w).sibling_nodes (slots o w).dry_run_success)
