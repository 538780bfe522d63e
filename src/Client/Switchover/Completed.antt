-- ===== src/Client/Switchover/Completed.antt =====
-- When a switchover ends without an error.
use repmgr.Base.{
  ◌≡◌, ◌↔◌, refl, sym, ap, ◌∙◌, ℕ, zero, suc, ◌+◌, ◌<◌, ◌≤◌, Bool, true, ◌&&◌, inl, inr, Bool-cases,
  ◌==◌, ==_iff, List, [], ◌∷◌, arith,
}
use repmgr.Client.Join.{is_attached}
use repmgr.Client.Promote.Siblings.{Sibling}
use repmgr.Client.Promote.Checks.{is_none}
use repmgr.Client.Switchover.World.{
  SwitchoverOptions, SwitchoverWorld, SwitchoverAction, Switchover, ends,
}
use repmgr.Client.Switchover.Finish.{rejoin, reconnects_to_remote, complete}
use repmgr.Client.Switchover.Shutdown.{ShutdownResult, await_shutdown}
use repmgr.Client.Switchover.Run.{
  take_over, stop_and_take_over, list_actions, siblings, slots, switch_over, do_standby_switchover,
}
use repmgr.Client.Switchover.Order.{rank, AllAt}
use repmgr.Client.Switchover.Cases.{if-cases, do_standby_switchover-cases}
use repmgr.Client.Switchover.Phases.{take_over-cases}
use repmgr.Client.Switchover.Reached.{reaches, reaches-append, stop_and_take_over-reaches}

-- A connection to the old primary is made in a round within the timeout.
abbrev pub Reconnects : SwitchoverWorld → Type 0
Reconnects w = (i : ℕ) × (i < w.standby_reconnect_timeout) × (w.remote_connects i ≡ true)

reconnects_to_remote-Reconnects :
    (w : SwitchoverWorld) (rounds i : ℕ)
    → i + rounds ≤ w.standby_reconnect_timeout
    → reconnects_to_remote w rounds i ≡ true
    → Reconnects w
unfolding reconnects_to_remote
reconnects_to_remote-Reconnects w zero i h e = cc e
reconnects_to_remote-Reconnects w (suc rounds) i h e = elim (Bool-cases (w.remote_connects i)) [
  | inl now ↦ (i, omega (arith, h), now)
  | inr not_now ↦
      reconnects_to_remote-Reconnects w rounds (suc i) (omega (arith, h))
        (ground (arith, e, not_now))
]

Reconnects-reconnects_to_remote :
    (w : SwitchoverWorld) (rounds i k : ℕ)
    → i ≤ k
    → k < i + rounds
    → w.remote_connects k ≡ true
    → reconnects_to_remote w rounds i ≡ true
unfolding reconnects_to_remote
Reconnects-reconnects_to_remote w zero i k low high e = absurd (omega (arith, low, high))
Reconnects-reconnects_to_remote w (suc rounds) i k low high e =
    elim (Bool-cases (w.remote_connects i)) [
      | inl now ↦ ground (arith, now)
      | inr not_now ↦ elim (Bool-cases (i == k)) [
        | inl same ↦ cc (e, ap w.remote_connects ((==_iff i k).0 same))
        | inr other ↦ ground (
          arith,
          not_now,
          Reconnects-reconnects_to_remote w rounds (suc i) k (ground (arith, low, other))
              (omega (arith, high)) e,
        )
      ]
    ]

three : (a b c : Bool) → ((a && (b && c)) ≡ true) ↔ ((a ≡ true) × (b ≡ true) × (c ≡ true))
three a b c =
    (λ h. (ground (arith, h), ground (arith, h), ground (arith, h)), λ h. ground (arith, h))

module _ (o : SwitchoverOptions) (w : SwitchoverWorld) where
  abbrev attached_again : Bool
  attached_again =
      reconnects_to_remote w w.standby_reconnect_timeout 0 && is_attached w.remote_attached

  abbrev Completes : Switchover → Type 0
  Completes s = is_none s.exit_code ≡ (reaches 4 s.actions && attached_again)

  failed-Completes : (code : ℕ) (l : List SwitchoverAction) → AllAt 2 l → Completes (ends code l)
  failed-Completes code [] t = refl
  failed-Completes code (action ∷ rest) (first, t) =
      ground (arith, first, failed-Completes code rest t)

  complete-Completes : (l : List Sibling) (b : Bool) → Completes (complete o w l b)
  unfolding complete rejoin rank
  complete-Completes l b = ground arith

  take_over-Completes : (l : List Sibling) (r : ShutdownResult) → Completes (take_over o w l r)
  take_over-Completes l r =
      take_over-cases Completes (λ code. refl) failed-Completes
        (λ r l s low high t h.
          h
          ∙ ap (λ b. b && attached_again)
              (sym (reaches-append 4 r l s.actions (omega (arith, high)) t)))
        o w complete-Completes l r

  stop_and_take_over-Completes : (l : List Sibling) → Completes (stop_and_take_over o w l)
  unfolding stop_and_take_over
  stop_and_take_over-Completes l =
      take_over-Completes l (await_shutdown o.options.force w w.shutdown_check_timeout 0 0)
      ∙ ap (λ b. b && attached_again) (sym (stop_and_take_over-reaches o w 4 l (omega arith)))

  do_standby_switchover-Completes : Completes (do_standby_switchover o w)
  unfolding switch_over list_actions rank
  do_standby_switchover-Completes =
      do_standby_switchover-cases Completes (λ code. refl) o w
        (if-cases Completes o.options.dry_run (list_actions (slots o w).dry_run_success)
          (stop_and_take_over o w (siblings o w).sibling_nodes) refl
          (λ real. stop_and_take_over-Completes (siblings o w).sibling_nodes))

  -- A run of "repmgr standby switchover" returns without an error exactly when it gets as far as
  -- the rejoin of the old primary, a connection to the old primary is then made in a round within
  -- the timeout, and the local node has it attached; whether the command for the rejoin has
  -- succeeded does not matter.
  pub do_standby_switchover-completes_iff :
      (is_none (do_standby_switchover o w).exit_code ≡ true) ↔ (
        (reaches 4 (do_standby_switchover o w).actions ≡ true)
        × Reconnects w
        × (is_attached w.remote_attached ≡ true))
  do_standby_switchover-completes_iff =
      let e = do_standby_switchover-Completes in
      let parts =
        three (reaches 4 (do_standby_switchover o w).actions)
          (reconnects_to_remote w w.standby_reconnect_timeout 0) (is_attached w.remote_attached) in
      (
        λ h.
            let (rejoins, reconnected, attached) = parts.0 (sym e ∙ h) in
            (
              rejoins,
              reconnects_to_remote-Reconnects w w.standby_reconnect_timeout 0 (omega arith)
                  reconnected,
              attached,
            ),
        λ h.
            let (rejoins, (i, early, connected), attached) = h in
            let again =
              Reconnects-reconnects_to_remote w w.standby_reconnect_timeout 0 i (omega arith)
                (omega (arith, early)) connected in
            e ∙ parts.1 (rejoins, again, attached),
      )
