-- ===== src/Client/Switchover/Recorded.antt =====
-- What a switchover does after the promotion, and that it does it only then.
use repmgr.Base.{
  ◌≡◌, refl, sym, ap, ◌∙◌, ℕ, Bool, true, false, not, ◌&&◌, Option, none, some, List, [], ◌∷◌, map,
  ltb, arith,
}
use repmgr.Nodes.{rectype_unknown}
use repmgr.Client.Promote.Siblings.{Sibling}
use repmgr.Client.Promote.Run.{PromoteWorld, Promotion, err_db_conn, promote_internal}
use repmgr.Client.Promote.Checks.{is_none}
use repmgr.Client.Promote.Wait.{Seen, poll-Seen}
use repmgr.Client.Promote.Outcome.{polled, returned, promote_succeeds, promote_internal-returned}
use repmgr.Client.Switchover.World.{
  SwitchoverOptions, SwitchoverWorld, SwitchoverAction, promotion, Switchover, after,
  err_switchover_fail,
}
use repmgr.Client.Switchover.Finish.{issue_checkpoint, finish_switchover}
use repmgr.Client.Switchover.Shutdown.{
  ShutdownResult, shut_down, unclean, not_confirmed, await_shutdown, await_wal,
}
use repmgr.Client.Switchover.Run.{
  promotes_over, if_returned, if_promoted, promote_and_finish, take_over, stop_and_take_over,
  list_actions, siblings, slots, switch_over, do_standby_switchover,
}
use repmgr.Client.Switchover.Order.{rank, AllAt, AllAt-promotion}
use repmgr.Client.Switchover.Cases.{if-cases, do_standby_switchover-cases}
use repmgr.Client.Switchover.Reached.{reaches, not_ended, stop_and_take_over-reaches}

-- The function or command that promotes the node has ended without an error, a poll within the
-- timeout has seen it as a primary, and its record is updated.
abbrev pub IsRecorded : PromoteWorld → Type 0
IsRecorded v = (promote_succeeds v ≡ true) × Seen v 0 × (v.record_updated ≡ true)

promote_internal-IsRecorded :
    (v : PromoteWorld) → returned (promote_internal v []) ≡ true → IsRecorded v
promote_internal-IsRecorded v h =
    let (succeeds, seen, updated) =
      parts v.node_record_found_again (promote_succeeds v) (polled v) v.record_updated
        (sym (promote_internal-returned v []) ∙ h) in
    (succeeds, poll-Seen v v.promote_check_timeout 0 rectype_unknown refl seen, updated)
  where
    parts : (a b c d : Bool) → (a && b && c && d) ≡ true → (b ≡ true) × (c ≡ true) × (d ≡ true)
    parts a b c d h = (ground (arith, h), ground (arith, h), ground (arith, h))

if_returned-reaches :
    (code : Option ℕ) (l : List SwitchoverAction) (next : Switchover)
    → AllAt 2 l
    → reaches 3 (if_returned code l next).actions ≡ true
    → code ≡ none
if_returned-reaches none l next t h = refl
if_returned-reaches (some code) l next t h = cc (h, none_reached l t)
  where
    none_reached : (l : List SwitchoverAction) → AllAt 2 l → reaches 3 l ≡ false
    none_reached [] t = refl
    none_reached (action ∷ rest) (first, t) = ground (arith, first, none_reached rest t)

if_promoted-IsRecorded :
    (v : PromoteWorld) (next : Switchover)
    → reaches 3 (if_promoted (promote_internal v []) next).actions ≡ true
    → IsRecorded v
if_promoted-IsRecorded v next h =
    let p : Promotion = promote_internal v [] in
    let e =
      if_returned-reaches p.exit_code (map promotion p.actions) next (AllAt-promotion p.actions)
        h in
    promote_internal-IsRecorded v (ap is_none e)

module _ (o : SwitchoverOptions) (w : SwitchoverWorld) where
  take_over-IsRecorded :
      (l : List Sibling) (r : ShutdownResult)
      → reaches 3 (take_over o w l r).actions ≡ true
      → IsRecorded (promotes_over o w)
  unfolding take_over promote_and_finish
  take_over-IsRecorded l unclean h = cc h
  take_over-IsRecorded l not_confirmed h = cc h
  take_over-IsRecorded l (shut_down lsn) h =
      let received = await_wal w lsn w.wal_receive_check_timeout 0 0 in
      let next = after (issue_checkpoint o w) (finish_switchover o w l received lsn) in
      let connected =
        not_ended 3 (not w.local_connection_ok && not w.local_reconnects) err_db_conn
          (promote_and_finish o w l received lsn) h in
      let started =
        not_ended 3 (ltb received lsn && not o.always_promote) err_switchover_fail
          (if_promoted (promote_internal (promotes_over o w) []) next) connected.1 in
      if_promoted-IsRecorded (promotes_over o w) next started.1

  stop_and_take_over-IsRecorded :
      (l : List Sibling)
      → reaches 3 (stop_and_take_over o w l).actions ≡ true
      → IsRecorded (promotes_over o w)
  stop_and_take_over-IsRecorded l h =
      take_over-IsRecorded l (await_shutdown o.options.force w w.shutdown_check_timeout 0 0)
        (sym (stop_and_take_over-reaches o w 3 l (omega arith)) ∙ h)

  -- Nothing after the promotion is done, neither the checkpoint nor the rejoin of the old primary
  -- nor a command to a sibling nor the end of a pause of repmgrd, unless the function or command
  -- that promotes the local node has ended without an error, a poll within the timeout has seen it
  -- as a primary, and its record is updated.
  pub do_standby_switchover-IsRecorded :
      reaches 3 (do_standby_switchover o w).actions ≡ true → IsRecorded (promotes_over o w)
  unfolding switch_over list_actions rank
  do_standby_switchover-IsRecorded =
      do_standby_switchover-cases (λ s. reaches 3 s.actions ≡ true → IsRecorded (promotes_over o w))
        (λ code h. cc h) o w
        (if-cases (λ s. reaches 3 s.actions ≡ true → IsRecorded (promotes_over o w))
          o.options.dry_run (list_actions (slots o w).dry_run_success)
          (stop_and_take_over o w (siblings o w).sibling_nodes) (λ h. cc h)
          (λ real. stop_and_take_over-IsRecorded (siblings o w).sibling_nodes))
