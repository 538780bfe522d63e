-- ===== src/Client/Promote/Outcome.antt =====
-- The outcome of a promotion, and what is done to the siblings after it.
use repmgr.Base.{
  ◌==ℤ◌, pos, ◌≡◌, ◌↔◌, refl, sym, ap, ◌∙◌, ℕ, ◌≤◌, Bool, true, false, not, ◌&&◌, ◌||◌, inl, inr,
  Bool-cases, Option, none, some, List, [], ◌∷◌, if◌then◌else◌, arith,
}
use repmgr.Client.Promote.Siblings.{Options}
use repmgr.Nodes.{rectype_unknown}
use repmgr.Client.Promote.Run.{
  PromoteWorld, PromoteAction, to_sibling, Promotion, unless_exit, check_cluster, poll,
  finish_promotion, promote_internal, check_prerequisites, do_standby_promote, use_pg_promote,
}
use repmgr.Client.Promote.Start.{
  prerequisites, conditions, follow_up, cluster_ready, check_cluster-by_type,
  check_prerequisites-real, check_prerequisites-dry,
}
use repmgr.Client.Promote.Checks.{is_none}
use repmgr.Client.Promote.Wait.{is_primary_type, Seen, poll-Seen, Seen-poll}

-- The promotion has gone through: the function returns.
abbrev pub returned : Promotion → Bool
returned p = elim p.exit_code [ none ↦ true | some code ↦ false ]

abbrev any_sibling : List PromoteAction → Bool
any_sibling [] = false
any_sibling (to_sibling action ∷ rest) = true
any_sibling (action ∷ rest) = any_sibling rest

-- A sibling has been told of the new primary.
abbrev pub tells_siblings : Promotion → Bool
tells_siblings p = any_sibling p.actions

-- The function or the command that promotes the node has ended without an error.
abbrev pub promote_succeeds : PromoteWorld → Bool
promote_succeeds w =
    if use_pg_promote w then w.pg_promote_executed else w.promote_command_status ==ℤ pos 0

module _ (w : PromoteWorld) where
  abbrev pub polled : Bool
  polled = is_primary_type (poll w w.promote_check_timeout 0 rectype_unknown)

  pub promote_internal-returned :
      (after : List PromoteAction)
      → returned (promote_internal w after)
        ≡ (w.node_record_found_again && promote_succeeds w && polled && w.record_updated)
  unfolding promote_internal finish_promotion
  promote_internal-returned after = ground arith

  promote_internal-tells :
      (after : List PromoteAction)
      → (not (tells_siblings (promote_internal w after)) || (polled && w.record_updated)) ≡ true
  unfolding promote_internal finish_promotion
  promote_internal-tells after = ground arith

  both : (a b : Bool) → (a && b) ≡ true → (a ≡ true) × (b ≡ true)
  both a b h = ground arith

  regroup : (a b c : Bool) → (a && (b && c)) ≡ ((a && b) && c)
  regroup a b c = ground arith

  four : (a b c d : Bool) → ((a && (b && c && d)) ≡ true) ↔ (((a && b && d) ≡ true) × (c ≡ true))
  four a b c d = (λ h. ground (arith, h), λ h. ground (arith, h))

  unless_exit-tells :
      (o : Option ℕ) (p : Promotion)
      → tells_siblings (unless_exit o p) ≡ true
      → tells_siblings p ≡ true
  unless_exit-tells none p h = h
  unless_exit-tells (some code) p h = cc h

  check_prerequisites-tells :
      (options : Options)
      → tells_siblings (check_prerequisites options w) ≡ true
      → (polled && w.record_updated) ≡ true
  check_prerequisites-tells options h = elim (Bool-cases options.dry_run) [
    | inl dry ↦ cc (h, check_prerequisites-dry options w tells_siblings dry refl refl)
    | inr real ↦ ground (
      arith,
      h,
      check_prerequisites-real options w tells_siblings real refl,
      promote_internal-tells (follow_up options w),
    )
  ]

  -- A sibling is told of the new primary only after a poll within the timeout has seen the node as
  -- a primary and its record has been updated.
  pub do_standby_promote-tells :
      (options : Options)
      → tells_siblings (do_standby_promote options w) ≡ true
      → Seen w 0 × (w.record_updated ≡ true)
  unfolding do_standby_promote
  do_standby_promote-tells options h =
      let told =
        unless_exit-tells (check_cluster w w.recovery_type) (check_prerequisites options w) h in
      let (seen, updated) = both polled w.record_updated (check_prerequisites-tells options told) in
      (poll-Seen w w.promote_check_timeout 0 rectype_unknown refl seen, updated)

  unless_exit-returned :
      (o : Option ℕ) (p : Promotion) → returned (unless_exit o p) ≡ (is_none o && returned p)
  unless_exit-returned none p = refl
  unless_exit-returned (some code) p = refl

  do_standby_promote-returned :
      (options : Options)
      → options.dry_run ≡ false
      → w.node_record_found_again ≡ true
      → returned (do_standby_promote options w)
        ≡ (prerequisites options w && (promote_succeeds w && polled && w.record_updated))
  unfolding do_standby_promote
  do_standby_promote-returned options real found =
      unless_exit-returned (check_cluster w w.recovery_type) (check_prerequisites options w)
      ∙ rw
          (
            (check_cluster-by_type options w w.recovery_type).0,
            check_prerequisites-real options w returned real refl,
            promote_internal-returned (follow_up options w),
          )
          (regroup (cluster_ready w) (conditions options w) _
            ∙ ap
                (λ b.
                  prerequisites options w
                  && (b && promote_succeeds w && polled && w.record_updated))
                found)

  -- A real run that finds the node's record both times returns, with the promotion recorded,
  -- exactly when the prerequisites are met, the promote function or command ends without an error,
  -- a poll within the timeout sees the node as a primary, and its record is updated.
  pub do_standby_promote-returned_iff :
      (options : Options)
      → options.dry_run ≡ false
      → w.node_record_found_again ≡ true
      → 1 ≤ w.promote_check_interval
      → (returned (do_standby_promote options w) ≡ true)
        ↔ (((prerequisites options w && promote_succeeds w && w.record_updated) ≡ true) × Seen w 0)
  do_standby_promote-returned_iff options real found positive =
      let e = do_standby_promote-returned options real found in
      let parts = four (prerequisites options w) (promote_succeeds w) polled w.record_updated in
      (
        λ h.
            let (all, seen) = parts.0 (sym e ∙ h) in
            (all, poll-Seen w w.promote_check_timeout 0 rectype_unknown refl seen),
        λ h.
            e
            ∙ parts.1 (
              h.0,
              Seen-poll w w.promote_check_timeout 0 rectype_unknown positive (omega arith) h.1,
            ),
      )
