-- ===== src/Client/Switchover/Capacity.antt =====
-- The checks before a switchover, in terms of what the nodes have.
use repmgr.Base.{
  ◌≡◌, refl, ap, ◌∙◌, ℕ, ◌+◌, pos, ltb_ℤ, Bool, true, false, not, ◌&&◌, ◌||◌, Option, none, ltb,
  ◌==◌, arith,
}
use repmgr.Client.Promote.Siblings.{has_slot}
use repmgr.Client.Promote.Checks.{is_none, is_success}
use repmgr.Client.Promote.Needs.{
  following, all_reachable, check_sibling_nodes-counts, check_free_wal_senders-eq,
  check_free_slots-eq,
}
use repmgr.Client.Switchover.World.{SwitchoverOptions, SwitchoverWorld}
use repmgr.Client.Switchover.Checks.{
  require, check_local_node, check_remote_node, check_remote_host, check_remote_configuration,
  check_remote_users, check_nodes, check_replication,
}
use repmgr.Client.Switchover.Repmgrd.{instances}
use repmgr.Client.Switchover.Run.{siblings, senders, slots, demotion_needs, check_capacity}

-- A chain of checks ends without an exit exactly when it does so on its own and in what follows,
-- and it ends with success only by what follows.
abbrev Chains : (Option ℕ → Option ℕ) → Type 0
Chains f =
    (next : Option ℕ)
    → (is_none (f next) ≡ (is_none (f none) && is_none next))
      × (is_success (f next) ≡ (is_none (f none) && is_success next))

Chains-compose : (f g : Option ℕ → Option ℕ) → Chains f → Chains g → Chains (λ next. f (g next))
Chains-compose f g hf hg next = ground (arith, hf (g next), hf (g none), hg next)

-- The conditions of a real run, and of a dry run without "--force", where each result of a check is
-- known.
real_conditions :
    (a s r t dry force reachable enough free : Bool) (n : ℕ)
    → dry ≡ false
    → a ≡ (force || reachable)
    → s ≡ (dry || enough)
    → t ≡ (dry || force || free)
    → (a && ((s || dry) && (r && ((t || dry) && (not (ltb 0 n) || force)))))
      ≡ ((force || reachable) && (enough && (r && ((force || free) && (force || n == 0)))))
real_conditions a s r t dry force reachable enough free n hd ha hs ht =
    rw (ha, hs, ht, hd) (pure force reachable enough r free n)
  where
    pure :
        (force reachable enough r free : Bool) (n : ℕ)
        → ((force || reachable)
            && ((enough || false)
                && (r && (((force || free) || false) && (not (ltb 0 n) || force)))))
          ≡ ((force || reachable) && (enough && (r && ((force || free) && (force || n == 0)))))
    pure force reachable enough r free n = ground arith

dry_conditions :
    (a s r t d dry force reachable enough free : Bool) (n : ℕ)
    → dry ≡ true
    → force ≡ false
    → a ≡ (force || reachable)
    → d ≡ (not (dry && not enough) && not (dry && not free))
    → ((a && ((s || dry) && (r && ((t || dry) && (not (ltb 0 n) || force))))) && d)
      ≡ ((force || reachable) && (enough && (r && ((force || free) && (force || n == 0)))))
dry_conditions a s r t d dry force reachable enough free n hd hf ha he =
    rw (ha, he, hd, hf) (pure s t reachable enough r free n)
  where
    pure :
        (s t reachable enough r free : Bool) (n : ℕ)
        → ((reachable && ((s || true) && (r && ((t || true) && (not (ltb 0 n) || false)))))
            && (not (not enough) && not (not free)))
          ≡ (reachable && (enough && (r && (free && (n == 0)))))
    pure s t reachable enough r free n = ground arith

module _ (o : SwitchoverOptions) (w : SwitchoverWorld) where
  check_local_node-Chains : Chains (check_local_node o w)
  unfolding check_local_node
  check_local_node-Chains next = ground arith

  check_remote_node-Chains : Chains (check_remote_node o w)
  unfolding check_remote_node
  check_remote_node-Chains next = ground arith

  check_remote_host-Chains : Chains (check_remote_host w)
  unfolding check_remote_host
  check_remote_host-Chains next = ground arith

  check_remote_configuration-Chains : Chains (check_remote_configuration w)
  unfolding check_remote_configuration
  check_remote_configuration-Chains next = ground arith

  check_remote_users-Chains : Chains (check_remote_users o w)
  unfolding check_remote_users
  check_remote_users-Chains next = ground arith

  check_replication-Chains : (force : Bool) → Chains (check_replication force w)
  unfolding check_replication
  check_replication-Chains force next = ground arith

  pub check_nodes-Chains : Chains (check_nodes o w)
  unfolding check_nodes
  check_nodes-Chains =
      let remote =
        Chains-compose (check_remote_host w)
          (λ next. check_remote_configuration w (check_remote_users o w next))
          check_remote_host-Chains
          (Chains-compose (check_remote_configuration w) (check_remote_users o w)
            check_remote_configuration-Chains check_remote_users-Chains) in
      Chains-compose (check_local_node o w)
        (λ next.
          check_remote_node o w
            (check_remote_host w (check_remote_configuration w (check_remote_users o w next))))
        check_local_node-Chains
        (Chains-compose (check_remote_node o w)
          (λ next. check_remote_host w (check_remote_configuration w (check_remote_users o w next)))
          check_remote_node-Chains remote)

  -- The checks of the nodes pass where each of them passes on its own.
  pub check_nodes-parts : is_none (check_nodes o w none) ≡ (
      is_none (check_local_node o w none)
      && (is_none (check_remote_node o w none)
          && (is_none (check_remote_host w none)
              && (is_none (check_remote_configuration w none)
                  && is_none (check_remote_users o w none)))))
  unfolding check_nodes
  check_nodes-parts =
      let users = check_remote_users o w none in
      let configuration = check_remote_configuration w users in
      let host = check_remote_host w configuration in
      let remote = check_remote_node o w host in
      ground (
        arith,
        (check_local_node-Chains remote).0,
        (check_remote_node-Chains host).0,
        (check_remote_host-Chains configuration).0,
        (check_remote_configuration-Chains users).0,
      )

  -- A free WAL sender for the old primary and for every sibling that is to follow.
  abbrev pub enough_senders : Bool
  enough_senders =
      not
        (ltb_ℤ w.local.available_wal_senders (pos (1 + following o.options w.local w.local.ssh_ok)))

  -- The slots that are needed: one for the old primary if it has one, and one for each sibling that
  -- is to follow and has one.
  abbrev pub needed_slots : ℕ
  needed_slots =
      (demotion_needs w).min_required_free_slots
      + following o.options w.local (λ node. w.local.ssh_ok node && has_slot node)

  abbrev pub enough_free_slots : Bool
  enough_free_slots = needed_slots == 0 || not (ltb_ℤ w.local.available_slots (pos needed_slots))

  -- Every node that is marked as active can be reached where the instances of repmgrd are to be
  -- paused.
  abbrev pub all_can_pause : Bool
  all_can_pause = (instances o w).unreachable_node_count == 0

  -- The conditions for a switchover after the checks of the nodes, in a real run.
  abbrev pub capacity : Bool
  capacity =
      (o.options.force || all_reachable o.options w.local)
      && (enough_senders
          && (is_none (check_replication o.options.force w none)
              && ((o.options.force || enough_free_slots) && (o.options.force || all_can_pause))))

  siblings-result :
      ((siblings o w).result ≡ (o.options.force || all_reachable o.options w.local))
      × ((siblings o w).stats.min_required_wal_senders
          ≡ 1 + following o.options w.local w.local.ssh_ok)
      × ((siblings o w).stats.min_required_free_slots ≡ needed_slots)
  siblings-result = check_sibling_nodes-counts o.options w.local (demotion_needs w) refl

  check_capacity-chain :
      (a b c d : Bool)
      → is_none (
          require a 1 (
            require (b || o.options.dry_run) 1 (
              check_replication o.options.force w
                (require (c || o.options.dry_run) 1 (require d 18 none)))))
        ≡ (a
            && ((b || o.options.dry_run)
                && (is_none (check_replication o.options.force w none)
                    && ((c || o.options.dry_run) && d))))
  check_capacity-chain a b c d = ground (
    arith,
    check_replication-Chains o.options.force
        (require (c || o.options.dry_run) 1 (require d 18 none)),
  )

  senders-result :
      ((senders o w).result ≡ (o.options.dry_run || enough_senders))
      × ((senders o w).dry_run_success ≡ not (o.options.dry_run && not enough_senders))
  senders-result =
      let (result, needed, needed_free) = siblings-result in
      ground (arith, check_free_wal_senders-eq o.options w.local (siblings o w).stats true, needed)

  slots-result :
      ((slots o w).result ≡ (o.options.dry_run || o.options.force || enough_free_slots))
      × ((slots o w).dry_run_success ≡ (
          not (o.options.dry_run && not enough_senders)
          && not (o.options.dry_run && not enough_free_slots)))
  slots-result =
      let (result, needed, needed_free) = siblings-result in
      ground (
        arith,
        check_free_slots-eq o.options w.local (siblings o w).stats (senders o w).dry_run_success,
        needed_free,
        senders-result.1,
      )

  check_capacity-eq : is_none (check_capacity o w) ≡ (
      (siblings o w).result
      && (((senders o w).result || o.options.dry_run)
          && (is_none (check_replication o.options.force w none)
              && (((slots o w).result || o.options.dry_run)
                  && (not (ltb 0 (instances o w).unreachable_node_count) || o.options.force)))))
  unfolding check_capacity
  check_capacity-eq =
      check_capacity-chain (siblings o w).result (senders o w).result (slots o w).result
        (not (ltb 0 (instances o w).unreachable_node_count) || o.options.force)

  pub check_capacity-real : o.options.dry_run ≡ false → is_none (check_capacity o w) ≡ capacity
  check_capacity-real real =
      check_capacity-eq
      ∙ real_conditions _ _ _ _ o.options.dry_run o.options.force _ _ _ _ real siblings-result.0
          senders-result.0 slots-result.0

  pub check_capacity-dry :
      o.options.dry_run ≡ true
      → o.options.force ≡ false
      → (is_none (check_capacity o w) && (slots o w).dry_run_success) ≡ capacity
  check_capacity-dry dry unforced =
      ap (λ b. b && (slots o w).dry_run_success) check_capacity-eq
      ∙ dry_conditions _ (senders o w).result _ (slots o w).result _ o.options.dry_run
          o.options.force _ _ _ _ dry unforced siblings-result.0 slots-result.1

  chain-failed :
      (a b c d : Bool)
      → is_success (
          require a 1
            (require b 1 (check_replication o.options.force w (require c 1 (require d 18 none)))))
        ≡ false
  chain-failed a b c d =
      ground (arith, check_replication-Chains o.options.force (require c 1 (require d 18 none)))

  pub check_capacity-failed : is_success (check_capacity o w) ≡ false
  unfolding check_capacity
  check_capacity-failed =
      chain-failed (siblings o w).result ((senders o w).result || o.options.dry_run)
        ((slots o w).result || o.options.dry_run)
        (not (ltb 0 (instances o w).unreachable_node_count) || o.options.force)
