-- ===== src/Client/Switchover/Rehearsal.antt =====
-- When a switchover stops the primary, and what a dry run says of it.
use repmgr.Base.{
  ◌≡◌, refl, sym, ap, ◌∙◌, ℕ, Bool, true, false, ◌&&◌, Option, none, some, List, if◌then◌else◌,
  arith,
}
use repmgr.Client.Promote.Siblings.{Sibling}
use repmgr.Client.Promote.Checks.{is_none, is_success}
use repmgr.Client.Promote.Start.{without_force}
use repmgr.Client.Switchover.World.{SwitchoverOptions, SwitchoverWorld, Switchover}
use repmgr.Client.Switchover.Checks.{
  check_local_node, check_remote_node, check_remote_host, check_remote_configuration,
  check_remote_users, check_nodes,
}
use repmgr.Client.Switchover.Repmgrd.{pause_repmgrds}
use repmgr.Client.Switchover.Run.{
  or_exit, stop_and_take_over, list_actions, siblings, slots, switch_over, check_capacity,
  do_standby_switchover,
}
use repmgr.Client.Switchover.Cases.{or_exit-eq}
use repmgr.Client.Switchover.Order.{rank, pause_repmgrds-AllAt}
use repmgr.Client.Switchover.Reached.{reaches, reaches-append}
use repmgr.Client.Switchover.Capacity.{
  capacity, check_nodes-Chains, check_capacity-real, check_capacity-dry, check_capacity-failed,
}

if_true : {A : Type 0} (b : Bool) (x y : A) → b ≡ true → (if b then x else y) ≡ x
if_true true x y h = refl
if_true false x y h = cc h

if_false : {A : Type 0} (b : Bool) (x y : A) → b ≡ false → (if b then x else y) ≡ y
if_false true x y h = cc h
if_false false x y h = refl

and_true : (a b : Bool) → ((a && b) && true) ≡ (a && b)
and_true a b = ground arith

and_false : (a : Bool) → (a && false) ≡ false
and_false a = ground arith

regroup : (a b c : Bool) → ((a && b) && c) ≡ (a && (b && c))
regroup a b c = ground arith

or_exit-is_success :
    (e : Option ℕ) (s : Switchover)
    → is_success e ≡ false
    → is_success (or_exit e s).exit_code ≡ (is_none e && is_success s.exit_code)
or_exit-is_success none s h = refl
or_exit-is_success (some code) s h = h

module _ (o : SwitchoverOptions) (w : SwitchoverWorld) where
  stop_and_take_over-stops :
      (l : List Sibling) → reaches 1 (stop_and_take_over o w l).actions ≡ true
  unfolding stop_and_take_over rank
  stop_and_take_over-stops l =
      reaches-append 1 0 (pause_repmgrds o w) _ (omega arith) (pause_repmgrds-AllAt o w)

  switch_over-real :
      (f : Switchover → Bool) (l : List Sibling) (d : Bool)
      → o.options.dry_run ≡ false
      → f (switch_over o w l d) ≡ f (stop_and_take_over o w l)
  unfolding switch_over
  switch_over-real f l d real = ap f (if_false _ _ _ real)

  switch_over-dry :
      (f : Switchover → Bool) (l : List Sibling) (d : Bool)
      → o.options.dry_run ≡ true
      → f (switch_over o w l d) ≡ f (list_actions d)
  unfolding switch_over
  switch_over-dry f l d dry = ap f (if_true _ _ _ dry)

  list_actions-is_success : (d : Bool) → is_success (list_actions d).exit_code ≡ d
  unfolding list_actions
  list_actions-is_success d = ground arith

  -- The nodes pass all their checks.
  abbrev pub nodes_pass : Bool
  nodes_pass = is_none (check_nodes o w none)

  do_standby_switchover-real :
      o.options.dry_run ≡ false
      → reaches 1 (do_standby_switchover o w).actions ≡ (nodes_pass && capacity o w)
  unfolding do_standby_switchover
  do_standby_switchover-real real =
      or_exit-eq (λ s. reaches 1 s.actions) (λ code. refl) (check_nodes o w (check_capacity o w)) _
      ∙ rw
          (
            (check_nodes-Chains o w (check_capacity o w)).0,
            check_capacity-real o w real,
            switch_over-real (λ s. reaches 1 s.actions) (siblings o w).sibling_nodes
                (slots o w).dry_run_success real,
            stop_and_take_over-stops (siblings o w).sibling_nodes,
          )
          (and_true nodes_pass (capacity o w))

  do_standby_switchover-dry :
      o.options.dry_run ≡ true
      → o.options.force ≡ false
      → is_success (do_standby_switchover o w).exit_code ≡ (nodes_pass && capacity o w)
  unfolding do_standby_switchover
  do_standby_switchover-dry dry unforced =
      let e = check_nodes o w (check_capacity o w) in
      let failed =
        (check_nodes-Chains o w (check_capacity o w)).1
        ∙ ap (λ b. nodes_pass && b) (check_capacity-failed o w)
        ∙ and_false nodes_pass in
      or_exit-is_success e _ failed
      ∙ rw
          (
            (check_nodes-Chains o w (check_capacity o w)).0,
            switch_over-dry (λ s. is_success s.exit_code) (siblings o w).sibling_nodes
                (slots o w).dry_run_success dry,
            list_actions-is_success (slots o w).dry_run_success,
          )
          (regroup nodes_pass (is_none (check_capacity o w)) (slots o w).dry_run_success
            ∙ ap (λ b. nodes_pass && b) (check_capacity-dry o w dry unforced))

-- The options without "--force", for a dry run or a real one.
abbrev pub unforced : SwitchoverOptions → Bool → SwitchoverOptions
unforced o dry_run = record o { options = without_force dry_run o.options.siblings_follow }

-- Without "--force", a dry run of "repmgr standby switchover" ends with success exactly when a real
-- run with the same answers stops the primary.
pub do_standby_switchover-dry_run_iff :
    (o : SwitchoverOptions) (w : SwitchoverWorld)
    → is_success (do_standby_switchover (unforced o true) w).exit_code
      ≡ reaches 1 (do_standby_switchover (unforced o false) w).actions
unfolding check_nodes check_local_node check_remote_node check_remote_host
    check_remote_configuration check_remote_users
do_standby_switchover-dry_run_iff o w =
    do_standby_switchover-dry (unforced o true) w refl refl
    ∙ sym (do_standby_switchover-real (unforced o false) w refl)
