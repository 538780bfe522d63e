-- ===== src/Client/Follow/Status.antt =====
-- With which status "repmgr standby follow" ends.
use repmgr.Base.{
  ◌≡◌, refl, ◌∙◌, ℕ, zero, suc, ℤ, Bool, true, false, ◌&&◌, Option, none, some, List, [], ◌∷◌, ◌==◌,
  if◌then◌else◌, arith,
}
use repmgr.Client.Promote.Run.{success}
use repmgr.Client.Promote.Checks.{is_success}
use repmgr.Client.Follow.Internal.{
  FollowAnswers, FollowAction, update_node_status, FollowOutcome, followed, failed, aborted,
  Following, clean_up_follow, restart_standby, apply_settings, write_settings,
  do_standby_follow_internal,
}
use repmgr.Client.Follow.Run.{
  FollowOptions, StandbyFollowWorld, FollowRun, err_follow_fail, exits_with, run_unless,
  await_target, check_follower, check_target, await_follow, report, target_id, follow_target,
  follow_awaited, do_standby_follow,
}

-- The update of the local node's record is tried.
abbrev pub updates : List FollowAction → Bool
updates [] = false
updates (update_node_status ∷ rest) = true
updates (action ∷ rest) = updates rest

-- The program ends with the status 0: the function returns, or it exits with the code for success.
abbrev pub ends_well : Option ℕ → Bool
ends_well none = true
ends_well (some code) = code == success

abbrev pub outcome_well : FollowOutcome → Bool
outcome_well followed = true
outcome_well (failed none) = true
outcome_well (failed (some code)) = code == success
outcome_well (aborted code) = code == success

abbrev pub is_followed : FollowOutcome → Bool
is_followed followed = true
is_followed _ = false

module _ (w : FollowAnswers) (id : ℤ) (code : ℕ) where
  abbrev pub Well : Following → Type 0
  Well run =
      (outcome_well run.outcome ≡ updates run.actions)
      × (is_followed run.outcome ≡ (updates run.actions && w.update_succeeds))

  clean_up_follow-Well : Well (clean_up_follow w id code)
  unfolding clean_up_follow
  clean_up_follow-Well = ground arith

  restart_standby-Well : Well (restart_standby w id code)
  unfolding restart_standby
  restart_standby-Well = ground (arith, clean_up_follow-Well)

  apply_settings-Well : Well (apply_settings w id code)
  unfolding apply_settings
  apply_settings-Well = ground (arith, clean_up_follow-Well, restart_standby-Well)

  write_settings-Well : (code == success) ≡ false → Well (write_settings w id code)
  unfolding write_settings
  write_settings-Well h = ground (arith, h, apply_settings-Well)

  pub do_standby_follow_internal-Well :
      (code == success) ≡ false → Well (do_standby_follow_internal w id code)
  unfolding do_standby_follow_internal
  do_standby_follow_internal-Well h = ground (arith, h, write_settings-Well h)

await_follow-true : (w : StandbyFollowWorld) (rounds i : ℕ) → await_follow w rounds i true ≡ true
unfolding await_follow
await_follow-true w zero i = refl
await_follow-true w (suc rounds) i = ground (arith, await_follow-true w rounds (suc i))

report-well :
    (w : StandbyFollowWorld) (outcome : FollowOutcome)
    → ends_well (report w outcome) ≡ outcome_well outcome
unfolding report
report-well w followed = ground (arith, await_follow-true w w.standby_follow_timeout 0)
report-well w (failed none) = refl
report-well w (failed (some code)) = refl
report-well w (aborted code) = refl

-- Checks never end with the code for success.
run_unless-well :
    (e : Option ℕ) (run : FollowRun)
    → is_success e ≡ false
    → ends_well run.exit_code ≡ updates run.actions
    → ends_well (run_unless e run).exit_code ≡ updates (run_unless e run).actions
run_unless-well none run failing h = h
run_unless-well (some code) run failing h = failing

if_real :
    (dry : Bool) (x y : FollowRun)
    → dry ≡ false
    → ends_well y.exit_code ≡ updates y.actions
    → ends_well (if dry then x else y).exit_code ≡ updates (if dry then x else y).actions
if_real true x y h k = cc h
if_real false x y h k = k

module _ (o : FollowOptions) (w : StandbyFollowWorld) where
  check_target-fails : is_success (check_target o w) ≡ false
  unfolding check_target
  check_target-fails = ground arith

  check_follower-fails : is_success (check_follower o w none) ≡ false
  unfolding check_follower
  check_follower-fails = ground arith

  follow_target-well :
      (i : ℕ)
      → o.dry_run ≡ false
      → ends_well (follow_target o w i).exit_code ≡ updates (follow_target o w i).actions
  unfolding follow_target
  follow_target-well i real =
      let run : Following =
        do_standby_follow_internal w.answers (target_id o w i) err_follow_fail in
      let done : FollowRun = record { exit_code = report w run.outcome; actions = run.actions } in
      run_unless-well (check_target o w) (if o.dry_run then exits_with success else done)
        check_target-fails
        (if_real o.dry_run (exits_with success) done real (
          report-well w run.outcome
          ∙ (do_standby_follow_internal-Well w.answers (target_id o w i) err_follow_fail refl).0))

  follow_awaited-well :
      (found : Option ℕ)
      → o.dry_run ≡ false
      → ends_well (follow_awaited o w found).exit_code ≡ updates (follow_awaited o w found).actions
  follow_awaited-well none real = refl
  follow_awaited-well (some i) real = follow_target-well i real

  -- A run of "repmgr standby follow" that is no dry run ends with the status 0 exactly when it gets
  -- as far as the update of the local node's record; neither the failure of this update nor the
  -- failure of the node to attach to the node it follows within the timeout changes that.
  pub do_standby_follow-ends_well_iff :
      o.dry_run ≡ false
      → ends_well (do_standby_follow o w).exit_code ≡ updates (do_standby_follow o w).actions
  unfolding do_standby_follow
  do_standby_follow-ends_well_iff real =
      run_unless-well (check_follower o w none)
        (follow_awaited o w (await_target o w w.primary_follow_timeout 0)) check_follower-fails
        (follow_awaited-well (await_target o w w.primary_follow_timeout 0) real)
