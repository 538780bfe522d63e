-- ===== src/Client/Rejoin/Status.antt =====
-- With which status "repmgr node rejoin" ends.
use repmgr.Base.{
  ◌≡◌, refl, sym, ap, ◌∙◌, ℕ, Bool, true, false, not, ◌&&◌, ◌||◌, Option, none, some, List, [], ◌∷◌,
  ◌++◌, map, if◌then◌else◌, arith,
}
use repmgr.Client.Join.{check_standby_join, joined}
use repmgr.Client.Promote.Run.{err_bad_config}
use repmgr.Client.Promote.Checks.{is_success}
use repmgr.Client.Follow.Internal.{
  FollowAction, update_node_status, FollowOutcome, Following, do_standby_follow_internal,
}
use repmgr.Client.Follow.Status.{
  updates, ends_well, outcome_well, is_followed, do_standby_follow_internal-Well,
}
use repmgr.Client.Rejoin.Run.{
  err_rejoin_fail, RejoinOptions, RejoinWorld, RejoinAction, archive_config, pg_rewind,
  restore_config, remove_recovery_done, remove_slot_directories, follow, Rejoining, stops, first,
  rejoin_unless, check_stopped, check_primary, drop_slot, confirm_rejoin, rejoin_primary,
  clean_directory, restore_files, execute_rewind, rewind, do_node_rejoin,
}

-- The update of the local node's record is tried.
abbrev pub tries_update : List RejoinAction → Bool
tries_update [] = false
tries_update (follow update_node_status ∷ rest) = true
tries_update (action ∷ rest) = tries_update rest

tries_update-follow :
    (l : List FollowAction) (m : List RejoinAction)
    → tries_update (map follow l ++ m) ≡ (updates l || tries_update m)
tries_update-follow [] m = refl
tries_update-follow (action ∷ rest) m = ground (arith, tries_update-follow rest m)

module _ (o : RejoinOptions) (w : RejoinWorld) where
  -- Once the update is tried: it fails, or the node attaches where this is waited for.
  abbrev pub passes_for_success : Bool
  passes_for_success =
      not w.answers.update_succeeds || o.no_wait || joined (check_standby_join w.join)

  confirm_rejoin-well :
      (outcome : FollowOutcome)
      → (ends_well (confirm_rejoin o w outcome).exit_code ≡ (
          outcome_well outcome
          && (not (is_followed outcome) || o.no_wait || joined (check_standby_join w.join))))
        × (tries_update (confirm_rejoin o w outcome).actions ≡ false)
  unfolding confirm_rejoin drop_slot
  confirm_rejoin-well outcome = ground arith

  abbrev Ends : Rejoining → Type 0
  Ends run = ends_well run.exit_code ≡ (tries_update run.actions && passes_for_success)

  rejoin_primary-Ends : o.dry_run ≡ false → Ends (rejoin_primary o w)
  unfolding rejoin_primary
  rejoin_primary-Ends real =
      let run : Following =
        do_standby_follow_internal w.answers w.primary_node_id err_rejoin_fail in
      let well = do_standby_follow_internal-Well w.answers w.primary_node_id err_rejoin_fail refl in
      ground (
        arith,
        real,
        well,
        confirm_rejoin-well run.outcome,
        tries_update-follow run.actions (confirm_rejoin o w run.outcome).actions,
      )

  first-Ends :
      (action : RejoinAction) (run : Rejoining)
      → tries_update (action ∷ []) ≡ false
      → Ends run
      → Ends (first (action ∷ []) run)
  first-Ends action run other h =
      h ∙ ap (λ b. b && passes_for_success) (sym (skips action run.actions other))
    where
      skips :
          (action : RejoinAction) (l : List RejoinAction)
          → tries_update (action ∷ []) ≡ false
          → tries_update (action ∷ l) ≡ tries_update l
      skips action l other = ground (arith, other)

  if-Ends : (t : Bool) (x y : Rejoining) → Ends x → Ends y → Ends (if t then x else y)
  if-Ends true x y hx hy = hx
  if-Ends false x y hx hy = hy

  clean_directory-Ends : o.dry_run ≡ false → Ends (clean_directory o w)
  unfolding clean_directory
  clean_directory-Ends real =
      let cleaned = first (remove_slot_directories ∷ []) (rejoin_primary o w) in
      let h =
        first-Ends remove_slot_directories (rejoin_primary o w) refl (rejoin_primary-Ends real) in
      if-Ends w.recovery_done_found (first (remove_recovery_done ∷ []) cleaned) cleaned
        (first-Ends remove_recovery_done cleaned refl h) h

  restore_files-Ends : o.dry_run ≡ false → Ends (restore_files o w)
  unfolding restore_files
  restore_files-Ends real =
      first-Ends restore_config
        (if not w.restore_succeeds then stops err_bad_config else clean_directory o w) refl
        (if-Ends (not w.restore_succeeds) (stops err_bad_config) (clean_directory o w) refl
          (clean_directory-Ends real))

  execute_rewind-Ends : o.dry_run ≡ false → Ends (execute_rewind o w)
  unfolding execute_rewind
  execute_rewind-Ends real =
      let rewound = if w.rewind_succeeds then restore_files o w else stops err_rejoin_fail in
      if-Ends o.dry_run (rejoin_primary o w) (first (pg_rewind ∷ []) rewound)
        (rejoin_primary-Ends real)
        (first-Ends pg_rewind rewound refl (
          if-Ends w.rewind_succeeds (restore_files o w) (stops err_rejoin_fail)
            (restore_files-Ends real) refl))

  rewind-Ends : o.dry_run ≡ false → Ends (rewind o w)
  unfolding rewind
  rewind-Ends real =
      let archived = if not w.archive_succeeds then stops err_bad_config else execute_rewind o w in
      if-Ends (not w.can_use_pg_rewind) (stops err_bad_config)
        (first (archive_config ∷ []) archived) refl
        (first-Ends archive_config archived refl (
          if-Ends (not w.archive_succeeds) (stops err_bad_config) (execute_rewind o w) refl
            (execute_rewind-Ends real)))

  check_stopped-fails :
      (next : Option ℕ) → is_success next ≡ false → is_success (check_stopped w next) ≡ false
  unfolding check_stopped
  check_stopped-fails next h = ground (arith, h)

  check_primary-fails : is_success (check_primary o w) ≡ false
  unfolding check_primary
  check_primary-fails = ground arith

  rejoin_unless-Ends :
      (e : Option ℕ) (run : Rejoining)
      → is_success e ≡ false
      → Ends run
      → Ends (rejoin_unless e run)
  rejoin_unless-Ends none run failing h = h
  rejoin_unless-Ends (some code) run failing h = failing

  -- A run of "repmgr node rejoin" that is no dry run ends with the status 0 exactly when it gets as
  -- far as the update of the local node's record and then either the update fails, or "--no-wait"
  -- is given, or the wait for the node to attach ends with success.
  pub do_node_rejoin-ends_well_iff :
      o.dry_run ≡ false
      → ends_well (do_node_rejoin o w).exit_code
        ≡ (tries_update (do_node_rejoin o w).actions && passes_for_success)
  unfolding do_node_rejoin
  do_node_rejoin-ends_well_iff real =
      rejoin_unless-Ends (check_stopped w (check_primary o w))
        (if o.force_rewind_used then rewind o w else rejoin_primary o w)
        (check_stopped-fails (check_primary o w) check_primary-fails)
        (if-Ends o.force_rewind_used (rewind o w) (rejoin_primary o w) (rewind-Ends real)
          (rejoin_primary-Ends real))
