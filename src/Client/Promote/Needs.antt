-- ===== src/Client/Promote/Needs.antt =====
-- What the siblings of a node need for its promotion, and what the checks find of it.
use repmgr.Base.{
  ◌≡◌, refl, ℕ, suc, ◌+◌, pos, ltb_ℤ, Bool, not, ◌&&◌, ◌||◌, inl, inr, Bool-cases, List, [], ◌∷◌,
  count, ltb, ◌==◌, if◌then◌else◌, arith,
}
use repmgr.Client.Promote.Siblings.{
  Options, Sibling, SiblingNodeStats, no_siblings, has_slot, count_reachable, probe_siblings,
  SiblingCheck, check_sibling_nodes, check_free_wal_senders, check_free_slots,
}
use repmgr.Client.Promote.Run.{PromoteWorld}

-- The siblings with a property that are to follow the new primary.
abbrev pub following : Options → PromoteWorld → (Sibling → Bool) → ℕ
following options w p = if options.siblings_follow then count p w.sibling_nodes else 0

-- There is a free WAL sender for every sibling that can be reached.
abbrev pub enough_wal_senders : Options → PromoteWorld → Bool
enough_wal_senders options w =
    not (ltb_ℤ w.available_wal_senders (pos (following options w w.ssh_ok)))

-- No sibling that can be reached has a slot, or there is a free slot for each that has one.
abbrev pub enough_slots : Options → PromoteWorld → Bool
enough_slots options w =
    let needed = following options w (λ node. w.ssh_ok node && has_slot node) in
    needed == 0 || not (ltb_ℤ w.available_slots (pos needed))

abbrev pub all_reachable : Options → PromoteWorld → Bool
all_reachable options w = following options w (λ node. not (w.ssh_ok node)) == 0

probe_siblings-count :
    (ssh_ok : Sibling → Bool) (siblings : List Sibling) (stats : SiblingNodeStats)
    → ((probe_siblings ssh_ok siblings stats).1.min_required_wal_senders
        ≡ stats.min_required_wal_senders + count ssh_ok siblings)
      × ((probe_siblings ssh_ok siblings stats).1.min_required_free_slots
          ≡ stats.min_required_free_slots + count (λ node. ssh_ok node && has_slot node) siblings)
      × ((probe_siblings ssh_ok siblings stats).1.unreachable_sibling_node_count
          ≡ stats.unreachable_sibling_node_count + count (λ node. not (ssh_ok node)) siblings)
unfolding probe_siblings count_reachable
probe_siblings-count ssh_ok [] stats = ground arith
probe_siblings-count ssh_ok (node ∷ rest) stats =
    let down = record stats {
      unreachable_sibling_node_count = suc stats.unreachable_sibling_node_count;
    } in
    elim (Bool-cases (ssh_ok node)) [
      | inl up ↦ ground (arith, up, probe_siblings-count ssh_ok rest (count_reachable node stats))
      | inr lost ↦ ground (arith, lost, probe_siblings-count ssh_ok rest down)
    ]

module _ (options : Options) (w : PromoteWorld) where
  -- From the counts `stats` of the caller on, none of which is of a sibling out of reach.
  pub check_sibling_nodes-counts :
      (stats : SiblingNodeStats)
      → stats.unreachable_sibling_node_count ≡ 0
      → let check : SiblingCheck = check_sibling_nodes options w.ssh_ok w.sibling_nodes stats in
        (check.result ≡ (options.force || all_reachable options w))
        × (check.stats.min_required_wal_senders
            ≡ stats.min_required_wal_senders + following options w w.ssh_ok)
        × (check.stats.min_required_free_slots
            ≡ stats.min_required_free_slots
              + following options w (λ node. w.ssh_ok node && has_slot node))
  unfolding check_sibling_nodes
  check_sibling_nodes-counts stats fresh =
      ground (arith, fresh, probe_siblings-count w.ssh_ok w.sibling_nodes stats)

  pub check_sibling_nodes-following :
      let check : SiblingCheck = check_sibling_nodes options w.ssh_ok w.sibling_nodes no_siblings in
      (check.result ≡ (options.force || all_reachable options w))
      × (check.stats.min_required_wal_senders ≡ following options w w.ssh_ok)
      × (check.stats.min_required_free_slots
          ≡ following options w (λ node. w.ssh_ok node && has_slot node))
  check_sibling_nodes-following =
      let (result, senders, slots) = check_sibling_nodes-counts no_siblings refl in
      (result, omega (arith, senders), omega (arith, slots))

  pub check_free_wal_senders-eq :
      (stats : SiblingNodeStats) (d : Bool)
      → let short = ltb_ℤ w.available_wal_senders (pos stats.min_required_wal_senders) in
        ((check_free_wal_senders options w.available_wal_senders stats d).result
          ≡ (options.dry_run || not short))
        × ((check_free_wal_senders options w.available_wal_senders stats d).dry_run_success
            ≡ (d && not (options.dry_run && short)))
  unfolding check_free_wal_senders
  check_free_wal_senders-eq stats d = ground arith

  pub check_free_slots-eq :
      (stats : SiblingNodeStats) (d : Bool)
      → let short =
          ltb 0 stats.min_required_free_slots
          && ltb_ℤ w.available_slots (pos stats.min_required_free_slots) in
        ((check_free_slots options w.available_slots stats d).result
          ≡ (options.dry_run || options.force || not short))
        × ((check_free_slots options w.available_slots stats d).dry_run_success
            ≡ (d && not (options.dry_run && short)))
  unfolding check_free_slots
  check_free_slots-eq stats d = ground arith

  needless : (n : ℕ) (b : Bool) → not (ltb 0 n && b) ≡ (n == 0 || not b)
  needless n b = ground arith

  -- The checks in terms of the siblings, for any state of the dry run.
  abbrev pub siblings : SiblingCheck
  siblings = check_sibling_nodes options w.ssh_ok w.sibling_nodes no_siblings

  pub senders-result :
      (d : Bool)
      → ((check_free_wal_senders options w.available_wal_senders siblings.stats d).result
          ≡ (options.dry_run || enough_wal_senders options w))
        × ((check_free_wal_senders options w.available_wal_senders siblings.stats d).dry_run_success
            ≡ (d && not (options.dry_run && not (enough_wal_senders options w))))
  senders-result d =
      let (result, senders, slots) = check_sibling_nodes-following in
      ground (arith, check_free_wal_senders-eq siblings.stats d, senders)

  pub slots-result :
      (d : Bool)
      → ((check_free_slots options w.available_slots siblings.stats d).result
          ≡ (options.dry_run || options.force || enough_slots options w))
        × ((check_free_slots options w.available_slots siblings.stats d).dry_run_success
            ≡ (d && not (options.dry_run && not (enough_slots options w))))
  slots-result d =
      let (result, senders, slots) = check_sibling_nodes-following in
      ground (arith, check_free_slots-eq siblings.stats d, slots)
