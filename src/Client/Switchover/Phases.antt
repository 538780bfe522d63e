-- ===== src/Client/Switchover/Phases.antt =====
-- What holds of every run of a switchover after the stop of the primary.
use repmgr.Base.{ℕ, ◌≤◌, Bool, not, ◌&&◌, Option, none, some, List, [], map, ltb, arith}
use repmgr.Nodes.{Lsn}
use repmgr.Client.Promote.Siblings.{Sibling}
use repmgr.Client.Promote.Run.{Promotion, err_db_conn, promote_internal}
use repmgr.Client.Switchover.World.{
  SwitchoverOptions, SwitchoverWorld, SwitchoverAction, promotion, Switchover, ends, after,
  err_switchover_fail,
}
use repmgr.Client.Switchover.Finish.{issue_checkpoint, complete, finish_switchover}
use repmgr.Client.Switchover.Shutdown.{ShutdownResult, shut_down, unclean, not_confirmed, await_wal}
use repmgr.Client.Switchover.Run.{
  promotes_over, if_returned, if_promoted, promote_and_finish, take_over,
}
use repmgr.Client.Switchover.Order.{AllAt, AllAt-promotion, issue_checkpoint-AllAt}
use repmgr.Client.Switchover.Cases.{ends_if-cases}

-- A run ends early, or fails in the promotion, or gets through the promotion and the checkpoint to
-- the rejoin.
module _ {ℓ} (P : Switchover → Type ℓ) (ended : (code : ℕ) → P (ends code []))
    (failed : (code : ℕ) (l : List SwitchoverAction) → AllAt 2 l → P (ends code l))
    (later : (r : ℕ) (l : List SwitchoverAction) (s : Switchover)
      → 2 ≤ r
      → r ≤ 3
      → AllAt r l
      → P s
      → P (after l s))
    (o : SwitchoverOptions) (w : SwitchoverWorld)
    (completed : (l : List Sibling) (b : Bool) → P (complete o w l b)) where
  if_returned-cases :
      (code : Option ℕ) (l : List SwitchoverAction) (s : Switchover)
      → AllAt 2 l
      → P s
      → P (if_returned code l s)
  if_returned-cases none l s t h = later 2 l s (omega arith) (omega arith) t h
  if_returned-cases (some code) l s t h = failed code l t

  finish_switchover-cases : (l : List Sibling) (m n : Lsn) → P (finish_switchover o w l m n)
  unfolding finish_switchover
  finish_switchover-cases l m n =
      ends_if-cases P (ltb m n && not o.force_rewind_used) err_switchover_fail
        (complete o w l (ltb m n)) (ended err_switchover_fail) (completed l (ltb m n))

  promote_and_finish_switchover-cases :
      (l : List Sibling) (m n : Lsn) → P (promote_and_finish o w l m n)
  unfolding promote_and_finish
  promote_and_finish_switchover-cases l m n =
      let promoted : Promotion = promote_internal (promotes_over o w) [] in
      let next = after (issue_checkpoint o w) (finish_switchover o w l m n) in
      ends_if-cases P (ltb m n && not o.always_promote) err_switchover_fail
        (if_promoted promoted next) (ended err_switchover_fail)
        (if_returned-cases promoted.exit_code (map promotion promoted.actions) next
          (AllAt-promotion promoted.actions)
          (later 3 (issue_checkpoint o w) (finish_switchover o w l m n) (omega arith) (omega arith)
            (issue_checkpoint-AllAt o w) (finish_switchover-cases l m n)))

  pub take_over-cases : (l : List Sibling) (r : ShutdownResult) → P (take_over o w l r)
  unfolding take_over
  take_over-cases l unclean = ended err_switchover_fail
  take_over-cases l not_confirmed = ended err_switchover_fail
  take_over-cases l (shut_down target) =
      let received = await_wal w target w.wal_receive_check_timeout 0 0 in
      ends_if-cases P (not w.local_connection_ok && not w.local_reconnects) err_db_conn
        (promote_and_finish o w l received target) (ended err_db_conn)
        (promote_and_finish_switchover-cases l received target)
