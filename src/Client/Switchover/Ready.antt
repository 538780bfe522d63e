-- ===== src/Client/Switchover/Ready.antt =====
-- What a switchover asks of the two nodes and of the cluster, stated without the chain of checks.
use repmgr.Base.{
  ℤ, ◌≡◌, refl, ap, ◌∙◌, ℕ, ◌+◌, negsuc, pos, ltb_ℤ, leb_ℤ, ◌==ℤ◌, Bool, true, false, not, ◌&&◌,
  ◌||◌, Option, none, some, List, [], ◌∷◌, ltb, leb, ◌==◌, arith,
}
use repmgr.Nodes.{ServerType, primary, standby, NodeAttached, RecoveryType, rectype_standby}
use repmgr.Client.Promote.Siblings.{has_slot}
use repmgr.Client.Promote.Checks.{is_none}
use repmgr.Client.Promote.Needs.{following, all_reachable}
use repmgr.Client.Switchover.World.{
  SwitchoverOptions, SwitchoverWorld, ActiveNode, RepmgrdAnswer, CheckStatus, check_status_ok,
  check_status_warning, check_status_critical, check_status_unknown, ConnectionStatus, conn_ok,
  RemoteError, remote_error_db_connection,
}
use repmgr.Client.Switchover.Checks.{
  check_local_node, check_remote_node, check_remote_host, check_remote_configuration,
  check_remote_users, check_nodes, check_archive, check_lag, check_replication,
}
use repmgr.Client.Switchover.Repmgrd.{instances, repmgrd_info, survey}
use repmgr.Client.Switchover.Capacity.{
  enough_senders, enough_free_slots, capacity, check_nodes-parts,
}

abbrev streams : ServerType → Bool
streams primary = true
streams standby = true
streams _ = false

abbrev stands_by : RecoveryType → Bool
stands_by rectype_standby = true
stands_by _ = false

abbrev attached : NodeAttached → Bool
attached NodeAttached.node_attached = true
attached _ = false

-- A shell command that prints 0 for success has printed something else.
abbrev printed_yes : Option (List ℕ) → Bool
printed_yes none = false
printed_yes (some []) = true
printed_yes (some (char ∷ rest)) = not (char == 48)

abbrev affirmed : Option Bool → Bool
affirmed none = false
affirmed (some answer) = answer

abbrev superuser_passes : Option CheckStatus → Bool
superuser_passes (some check_status_ok) = true
superuser_passes _ = false

-- The program on the primary's host tells its version, and has the check of the owner of the
-- replication configuration if it is that of 5.1 or later.
abbrev tells_version : Option (Option ℕ) → Bool
tells_version (some (some version)) = true
tells_version _ = false

abbrev checks_owner : Option (Option ℕ) → Bool
checks_owner (some (some version)) = leb 50100 version
checks_owner _ = false

module _ (o : SwitchoverOptions) (w : SwitchoverWorld) where
  -- The local node is a registered standby that can connect to a primary, also as the superuser
  -- that is named, if one is.
  abbrev local_ready : Bool
  local_ready =
      w.node_record_found
      && streams w.type
      && (not o.superuser || (w.superuser_connects && w.superuser_has_rights))
      && stands_by w.local.recovery_type
      && w.replication_config_owner_ok
      && w.primary_connects

  -- That primary is registered and is the upstream to which the local node is attached; WAL replay
  -- is not paused on a server before version 13; no exclusive backup runs, and pg_rewind can be
  -- used if it is asked for.
  abbrev primary_ready : Bool
  primary_ready =
      w.remote_record_found
      && w.upstream_node_id ==ℤ w.remote_node_id
      && attached w.local_attached
      && (leb 130000 w.local.server_version_num || not w.wal_replay_paused)
      && w.no_exclusive_backup
      && (not o.force_rewind_used || w.can_use_pg_rewind)

  -- The primary's host can be reached by SSH, and has repmgr with a version, its configuration file
  -- and a data directory that agrees with it; the checks there of the superuser and of the owner of
  -- the replication configuration pass, where they are made.
  abbrev host_ready : Bool
  host_ready =
      w.ssh_result ==ℤ pos 0
      && printed_yes w.repmgr_binary
      && tells_version w.remote_repmgr_version
      && printed_yes w.config_file_exists
      && affirmed w.data_directory_config
      && (not o.superuser || superuser_passes w.remote_superuser)
      && (ltb w.local.server_version_num 120000
          || not (checks_owner w.remote_repmgr_version)
          || affirmed w.remote_config_owner)

  abbrev pub nodes_ready : Bool
  nodes_ready = local_ready && primary_ready && host_ready

  local_ready-eq : is_none (check_local_node o w none) ≡ local_ready
  unfolding check_local_node
  local_ready-eq = ground arith

  primary_ready-eq : is_none (check_remote_node o w none) ≡ primary_ready
  unfolding check_remote_node
  primary_ready-eq = ground arith

  host_ready-eq :
      (is_none (check_remote_host w none)
        && (is_none (check_remote_configuration w none) && is_none (check_remote_users o w none)))
      ≡ host_ready
  unfolding check_remote_host check_remote_configuration check_remote_users
  host_ready-eq = ground arith

  regroup : (a b c l p h : Bool) → a ≡ l → b ≡ p → c ≡ h → (a && (b && c)) ≡ (l && p && h)
  regroup a b c l p h ha hb hc = ground (arith, ha, hb, hc)

  pub check_nodes-ready : is_none (check_nodes o w none) ≡ nodes_ready
  check_nodes-ready =
      check_nodes-parts o w
      ∙ regroup _ _ _ local_ready primary_ready host_ready local_ready-eq primary_ready-eq
          host_ready-eq

-- What the check of the archiver on the primary may answer: files that wait in a number that is
-- critical, or a check that has failed, only with "--force"; a check that could not connect to the
-- database in no case.
abbrev archiver_ready : Bool → Option (CheckStatus × RemoteError) → Bool
archiver_ready force none = force
archiver_ready force (some (check_status_ok, error)) = true
archiver_ready force (some (check_status_warning, error)) = true
archiver_ready force (some (check_status_critical, error)) = force
archiver_ready force (some (check_status_unknown, remote_error_db_connection)) = false
archiver_ready force (some (check_status_unknown, error)) = force

-- Nothing is known against a replication connection from the primary's host.
abbrev can_replicate : Option ConnectionStatus → Bool
can_replicate none = true
can_replicate (some conn_ok) = true
can_replicate (some _) = false

-- Every active node can be reached.
abbrev all_active_reachable : (ℤ → RepmgrdAnswer) → List ActiveNode → Bool
all_active_reachable repmgrd [] = true
all_active_reachable repmgrd (node ∷ rest) =
    (not node.active || (repmgrd node.node_id).connects) && all_active_reachable repmgrd rest

survey-reachable :
    (repmgrd : ℤ → RepmgrdAnswer) (nodes : List ActiveNode)
    → ((survey repmgrd nodes).unreachable_node_count == 0) ≡ all_active_reachable repmgrd nodes
unfolding survey repmgrd_info
survey-reachable repmgrd [] = refl
survey-reachable repmgrd (node ∷ rest) = ground (arith, survey-reachable repmgrd rest)

module _ (o : SwitchoverOptions) (w : SwitchoverWorld) where
  -- The lag of the local node is known and not critical; a lag that is not known passes only where
  -- the limit for a warning is below it.
  abbrev lag_ready : Bool
  lag_ready =
      o.options.force
      || (not (leb_ℤ w.replication_lag_critical w.lag_seconds)
          && (leb_ℤ w.replication_lag_warning w.lag_seconds || not (w.lag_seconds ==ℤ negsuc 0)))

  abbrev replication_ready : Bool
  replication_ready =
      can_replicate w.replication_connection
      && (not w.archive_mode_on || archiver_ready o.options.force w.archive_check)
      && lag_ready

  -- The slots that the old primary, if it has one, and the siblings that are to follow and have one
  -- need on the local node.
  abbrev slots_to_hold : ℕ
  slots_to_hold =
      (elim w.remote_slot_name [ [] ↦ 0 | char ∷ rest ↦ 1 ])
      + following o.options w.local (λ node. w.local.ssh_ok node && has_slot node)

  abbrev slots_ready : Bool
  slots_ready = slots_to_hold == 0 || leb_ℤ (pos slots_to_hold) w.local.available_slots

  -- A WAL sender each for the old primary and for the siblings that are to follow.
  abbrev senders_ready : Bool
  senders_ready =
      leb_ℤ (pos (1 + following o.options w.local w.local.ssh_ok)) w.local.available_wal_senders

  abbrev repmgrd_ready : Bool
  repmgrd_ready = o.repmgrd_no_pause || all_active_reachable w.repmgrd w.all_nodes

  abbrev pub cluster_ready : Bool
  cluster_ready =
      (o.options.force || all_reachable o.options w.local)
      && senders_ready
      && replication_ready
      && (o.options.force || slots_ready)
      && (o.options.force || repmgrd_ready)

  check_replication-ready : is_none (check_replication o.options.force w none) ≡ replication_ready
  unfolding check_replication check_archive check_lag
  check_replication-ready = ground arith

  instances-ready : ((instances o w).unreachable_node_count == 0) ≡ repmgrd_ready
  instances-ready = ground (arith, survey-reachable w.repmgrd w.all_nodes)

  not-ltb : (a b : ℤ) → not (ltb_ℤ a b) ≡ leb_ℤ b a
  not-ltb a b = ground arith

  enough_free_slots-ready : enough_free_slots o w ≡ slots_ready
  enough_free_slots-ready =
      ap (λ b. slots_to_hold == 0 || b) (not-ltb w.local.available_slots (pos slots_to_hold))

  reassociate : (a b c d e : Bool) → (a && (b && (c && (d && e)))) ≡ (a && b && c && d && e)
  reassociate a b c d e = ground arith

  join :
      (force a s r t u s' r' t' u' : Bool)
      → s ≡ s'
      → r ≡ r'
      → t ≡ t'
      → u ≡ u'
      → (a && (s && (r && ((force || t) && (force || u)))))
        ≡ (a && s' && r' && (force || t') && (force || u'))
  join force a s r t u s' r' t' u' hs hr ht hu =
      rw (hs, hr, ht, hu) (reassociate a s' r' (force || t') (force || u'))

  pub capacity-ready : capacity o w ≡ cluster_ready
  capacity-ready =
      join o.options.force (o.options.force || all_reachable o.options w.local) (enough_senders o w)
        (is_none (check_replication o.options.force w none)) (enough_free_slots o w)
        ((instances o w).unreachable_node_count == 0) senders_ready replication_ready slots_ready
        repmgrd_ready
        (not-ltb w.local.available_wal_senders
          (pos (1 + following o.options w.local w.local.ssh_ok)))
        check_replication-ready enough_free_slots-ready instances-ready
