-- ===== src/Client/Switchover/Restored.antt =====
-- In which state a run of a switchover leaves an instance of repmgrd.
use repmgr.Base.{
  ◌≡◌, refl, sym, ap, ◌∙◌, ℕ, ◌≤◌, ℤ, Bool, true, false, not, ◌&&◌, ◌||◌, List, [], ◌∷◌, ◌++◌, ltb,
  if◌then◌else◌, arith,
}
use repmgr.Client.Promote.Siblings.{Sibling}
use repmgr.Client.Switchover.World.{
  SwitchoverOptions, SwitchoverWorld, SwitchoverAction, repmgrd_pause, list_stop_actions,
  stop_primary, promotion, checkpoint, node_rejoin, switchover_notification, sibling,
  drop_replication_slot, Switchover, ends, after,
}
use repmgr.Client.Switchover.Repmgrd.{survey, pause_repmgrds, unpause_repmgrds}
use repmgr.Client.Switchover.Finish.{rejoin, reconnects_to_remote, follow_up, clean_up, complete}
use repmgr.Client.Switchover.Shutdown.{ShutdownResult, await_shutdown}
use repmgr.Client.Switchover.Run.{
  take_over, stop_and_take_over, list_actions, siblings, slots, switch_over, do_standby_switchover,
}
use repmgr.Client.Switchover.Order.{
  rank, AllAt, follow_up-AllAt, clean_up-AllAt, pause_repmgrds-AllAt,
}
use repmgr.Client.Switchover.Cases.{if-cases, do_standby_switchover-cases}
use repmgr.Client.Switchover.Phases.{take_over-cases}
use repmgr.Client.Switchover.Reached.{reaches, reaches-append}
use repmgr.Client.Switchover.Pauses.{
  paused_after, listed, paused_after-append, survey-paused, survey-unpaused, survey-running,
}

-- Only pauses and their ends change the state.
AllAt-paused_after :
    (id : ℤ) (p : Bool) (r : ℕ) (l m : List SwitchoverAction)
    → 1 ≤ r
    → r ≤ 7
    → AllAt r l
    → paused_after id p (l ++ m) ≡ paused_after id p m
unfolding paused_after rank
AllAt-paused_after id p r [] m low high t = refl
AllAt-paused_after id p r (repmgrd_pause node_id true ∷ rest) m low high t =
    absurd (omega (arith, low, t.0))
AllAt-paused_after id p r (repmgrd_pause node_id false ∷ rest) m low high t =
    absurd (omega (arith, high, t.0))
AllAt-paused_after id p r (list_stop_actions ∷ rest) m low high t =
    AllAt-paused_after id p r rest m low high t.1
AllAt-paused_after id p r (stop_primary ∷ rest) m low high t =
    AllAt-paused_after id p r rest m low high t.1
AllAt-paused_after id p r (promotion a ∷ rest) m low high t =
    AllAt-paused_after id p r rest m low high t.1
AllAt-paused_after id p r (checkpoint a ∷ rest) m low high t =
    AllAt-paused_after id p r rest m low high t.1
AllAt-paused_after id p r (node_rejoin a ∷ rest) m low high t =
    AllAt-paused_after id p r rest m low high t.1
AllAt-paused_after id p r (switchover_notification a ∷ rest) m low high t =
    AllAt-paused_after id p r rest m low high t.1
AllAt-paused_after id p r (sibling a ∷ rest) m low high t =
    AllAt-paused_after id p r rest m low high t.1
AllAt-paused_after id p r (drop_replication_slot ∷ rest) m low high t =
    AllAt-paused_after id p r rest m low high t.1

append_nil : (l : List SwitchoverAction) → l ++ [] ≡ l
append_nil [] = refl
append_nil (action ∷ rest) = ap (λ l. action ∷ l) (append_nil rest)

module _ (o : SwitchoverOptions) (w : SwitchoverWorld) (id : ℤ) where
  -- Once the primary is stopped: `restored` where the run goes on to the rejoin, and otherwise
  -- still paused.
  abbrev Left : Bool → Switchover → Type 0
  Left restored s =
      paused_after id true s.actions ≡ (if reaches 4 s.actions then restored else true)

  Left-append :
      (b : Bool) (r : ℕ) (l : List SwitchoverAction) (s : Switchover)
      → 1 ≤ r
      → r ≤ 3
      → AllAt r l
      → Left b s
      → Left b (after l s)
  Left-append b r l s low high t h =
      AllAt-paused_after id true r l s.actions low (omega (arith, high)) t
      ∙ (h
          ∙ ap (λ c. if c then b else true)
              (sym (reaches-append 4 r l s.actions (omega (arith, high)) t)))

  failed-Left : (b : Bool) (code : ℕ) (l : List SwitchoverAction) → AllAt 2 l → Left b (ends code l)
  unfolding paused_after
  failed-Left b code l t =
      rw (sym (append_nil l)) (Left-append b 2 l (ends code []) (omega arith) (omega arith) t refl)

  -- The instance is listed, found running, and can be reached again, and pauses are not left out.
  abbrev pub followed : Bool
  followed =
      not o.repmgrd_no_pause
      && (listed id w.all_nodes
          && ((w.repmgrd id).connects && (w.repmgrd id).is_running && w.reconnects id))

  -- What the instance is to be in at the end.
  abbrev pub restored : Bool
  restored = (w.repmgrd id).is_paused && not o.repmgrd_force_unpause

  counted : followed ≡ true → ltb 0 (survey w.repmgrd w.all_nodes).repmgrd_running_count ≡ true
  counted h = survey-running w.repmgrd id w.all_nodes (ground (arith, h))

  pause_repmgrds-paused :
      followed ≡ true
      → o.options.dry_run ≡ false
      → paused_after id (w.repmgrd id).is_paused (pause_repmgrds o w) ≡ true
  unfolding pause_repmgrds
  pause_repmgrds-paused h real =
      ground
        (arith, h, real, counted h, survey-paused w.repmgrd id w.all_nodes (w.repmgrd id).is_paused)

  unpause_repmgrds-restored :
      followed ≡ true → paused_after id true (unpause_repmgrds o w) ≡ restored
  unfolding unpause_repmgrds
  unpause_repmgrds-restored h = ground (
    arith,
    h,
    counted h,
    survey-unpaused w.repmgrd id o.repmgrd_force_unpause w.reconnects w.all_nodes true,
  )

  complete-Left : (l : List Sibling) (b : Bool) → followed ≡ true → Left restored (complete o w l b)
  unfolding complete rejoin rank paused_after
  complete-Left l b h =
      let reachable = reconnects_to_remote w w.standby_reconnect_timeout 0 in
      AllAt-paused_after id true 6 (follow_up o w l) (clean_up w reachable ++ unpause_repmgrds o w)
        (omega arith) (omega arith) (follow_up-AllAt o w l)
      ∙ (AllAt-paused_after id true 7 (clean_up w reachable) (unpause_repmgrds o w) (omega arith)
            (omega arith) (clean_up-AllAt o w reachable)
          ∙ unpause_repmgrds-restored h)

  take_over-Left :
      (l : List Sibling) (r : ShutdownResult) → followed ≡ true → Left restored (take_over o w l r)
  unfolding paused_after
  take_over-Left l r h =
      take_over-cases (Left restored) (λ code. refl) (failed-Left restored)
        (λ r l s low high t k. Left-append restored r l s (omega (arith, low)) high t k) o w
        (λ l b. complete-Left l b h) l r

  -- Before the primary is stopped, the instance is as it was.
  abbrev Restores : Switchover → Type 0
  Restores s =
      paused_after id (w.repmgrd id).is_paused s.actions
      ≡ (if reaches 4 s.actions then restored else reaches 1 s.actions || (w.repmgrd id).is_paused)

  stop_and_take_over-Restores :
      (l : List Sibling)
      → followed ≡ true
      → o.options.dry_run ≡ false
      → Restores (stop_and_take_over o w l)
  unfolding stop_and_take_over rank paused_after
  stop_and_take_over-Restores l h real =
      let stopped = await_shutdown o.options.force w w.shutdown_check_timeout 0 0 in
      let later = stop_primary ∷ (take_over o w l stopped).actions in
      let split = paused_after-append id (w.repmgrd id).is_paused (pause_repmgrds o w) later in
      let pauses = pause_repmgrds-AllAt o w in
      ground (
        arith,
        split,
        pause_repmgrds-paused h real,
        take_over-Left l stopped h,
        reaches-append 4 0 (pause_repmgrds o w) later (omega arith) pauses,
        reaches-append 1 0 (pause_repmgrds o w) later (omega arith) pauses,
      )

  -- Where the instances of repmgrd are to be paused, and one runs on a listed node that can be
  -- reached and reached again: a run that gets as far as the rejoin of the old primary leaves the
  -- instance paused exactly when it was paused before and "--repmgrd-force-unpause" is not given.
  -- A run that ends after the stop of the primary and before the rejoin leaves the instance
  -- paused, and a run that ends before the stop, or is a dry run, leaves it as it was.
  pub do_standby_switchover-Restores : followed ≡ true → Restores (do_standby_switchover o w)
  unfolding switch_over list_actions rank paused_after
  do_standby_switchover-Restores h =
      do_standby_switchover-cases Restores (λ code. refl) o w
        (if-cases Restores o.options.dry_run (list_actions (slots o w).dry_run_success)
          (stop_and_take_over o w (siblings o w).sibling_nodes) refl
          (stop_and_take_over-Restores (siblings o w).sibling_nodes h))
