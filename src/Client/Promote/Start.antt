-- ===== src/Client/Promote/Start.antt =====
-- When a promotion starts, and what a dry run says of it.
use repmgr.Base.{
  ◌≡◌, refl, sym, ◌∙◌, Bool, true, false, not, ◌&&◌, leb, ◌||◌, none, some, List, [], map,
  if◌then◌else◌, arith,
}
use repmgr.Client.Promote.Siblings.{Options, check_free_wal_senders, sibling_nodes_follow}
use repmgr.Nodes.{RecoveryType, rectype_standby}
use repmgr.Client.Promote.Run.{
  PromoteWorld, PromoteAction, to_sibling, Promotion, success, exits, err_bad_config, replay_paused,
  check_cluster, finish_promotion, promote_internal, check_prerequisites, do_standby_promote,
}
use repmgr.Client.Promote.Needs.{
  enough_wal_senders, enough_slots, all_reachable, check_sibling_nodes-following, siblings,
  senders-result, slots-result,
}
use repmgr.Client.Promote.Checks.{
  has_actions, is_success, is_none, starts, rehearses, predicts, unless_exit-has_actions,
  unless_exit-is_success, and_true,
}

abbrev is_standby_type : RecoveryType → Bool
is_standby_type rectype_standby = true
is_standby_type _ = false

-- The WAL replay is known to go on: no promotion has to wait for it. From version 13 on a promotion
-- ends the pause; an older server must have answered whether it receives streamed WAL, and its
-- replay must not be paused.
abbrev pub replay_goes_on : PromoteWorld → Bool
replay_goes_on w = leb 130000 w.server_version_num || (elim w.receiving_streamed_wal [
  | none ↦ false
  | some streaming ↦ not (w.wal_replay_paused streaming)
])

-- The node is a standby with a record, whose WAL replay goes on, and no other node is an active
-- primary.
abbrev pub cluster_ready : PromoteWorld → Bool
cluster_ready w =
    is_standby_type w.recovery_type
    && w.node_record_found
    && replay_goes_on w
    && not w.active_primary

module _ (options : Options) (w : PromoteWorld) where
  promote_internal-has_actions :
      (after : List PromoteAction)
      → has_actions (promote_internal w after) ≡ w.node_record_found_again
  unfolding promote_internal finish_promotion
  promote_internal-has_actions after = ground arith

  pub check_cluster-by_type :
      (type : RecoveryType)
      → (is_none (check_cluster w type) ≡ (
          is_standby_type type && w.node_record_found && replay_goes_on w && not w.active_primary))
        × (is_success (check_cluster w type) ≡ false)
  unfolding check_cluster replay_paused
  check_cluster-by_type type = ground arith

  -- What is done to the siblings once the node is promoted.
  abbrev pub follow_up : List PromoteAction
  follow_up =
      if options.siblings_follow
      then map to_sibling
          (sibling_nodes_follow w.witness_connects (siblings options w).sibling_nodes)
      else []

  abbrev pub conditions : Bool
  conditions =
      (options.force || all_reachable options w)
      && enough_wal_senders options w
      && (options.force || enough_slots options w)

  -- A real run is the promotion under the conditions, for all that is false of a failed check.
  pub check_prerequisites-real :
      (f : Promotion → Bool)
      → options.dry_run ≡ false
      → f (exits err_bad_config []) ≡ false
      → f (check_prerequisites options w) ≡ (conditions && f (promote_internal w follow_up))
  unfolding check_prerequisites
  check_prerequisites-real f real failed =
      let (result, _, _) = check_sibling_nodes-following options w in
      let senders = senders-result options w true in
      let slots =
        slots-result options w
          (check_free_wal_senders options w.available_wal_senders (siblings options w).stats
            true).dry_run_success in
      rw (result, senders.0, slots.0, real)
        (starts f (options.force || all_reachable options w) (enough_wal_senders options w)
          (options.force || enough_slots options w) _ failed)

  -- A dry run ends with one of two exit codes.
  pub check_prerequisites-dry :
      (f : Promotion → Bool)
      → options.dry_run ≡ true
      → f (exits err_bad_config []) ≡ false
      → f (exits success []) ≡ false
      → f (check_prerequisites options w) ≡ false
  unfolding check_prerequisites
  check_prerequisites-dry f dry failed passed =
      let (result, _, _) = check_sibling_nodes-following options w in
      let senders = senders-result options w true in
      let slots =
        slots-result options w
          (check_free_wal_senders options w.available_wal_senders (siblings options w).stats
            true).dry_run_success in
      rw (result, senders.0, slots.0, slots.1, senders.1, dry)
        (rehearses f (options.force || all_reachable options w) (enough_wal_senders options w)
          (enough_slots options w) failed passed)

  check_prerequisites-is_success :
      options.dry_run ≡ true
      → options.force ≡ false
      → is_success (check_prerequisites options w).exit_code
        ≡ (all_reachable options w && enough_wal_senders options w && enough_slots options w)
  unfolding check_prerequisites
  check_prerequisites-is_success dry unforced =
      let (result, _, _) = check_sibling_nodes-following options w in
      let senders = senders-result options w true in
      let slots =
        slots-result options w
          (check_free_wal_senders options w.available_wal_senders (siblings options w).stats
            true).dry_run_success in
      rw (result, senders.0, slots.0, slots.1, senders.1, dry, unforced)
        (predicts (all_reachable options w) (enough_wal_senders options w) (enough_slots options w))

  -- What a real run asks of the cluster before it promotes the node.
  abbrev pub prerequisites : Bool
  prerequisites = cluster_ready w && conditions

  pub do_standby_promote-starts_iff :
      options.dry_run ≡ false
      → w.node_record_found_again ≡ true
      → has_actions (do_standby_promote options w) ≡ prerequisites
  unfolding do_standby_promote
  do_standby_promote-starts_iff real found =
      unless_exit-has_actions (check_cluster w w.recovery_type) (check_prerequisites options w)
      ∙ rw
          (
            (check_cluster-by_type w.recovery_type).0,
            check_prerequisites-real has_actions real refl,
            promote_internal-has_actions follow_up,
            found,
          )
          (and_true _ _)

  do_standby_promote-dry_run :
      options.dry_run ≡ true
      → options.force ≡ false
      → is_success (do_standby_promote options w).exit_code ≡ prerequisites
  unfolding do_standby_promote
  do_standby_promote-dry_run dry unforced =
      unless_exit-is_success (check_cluster w w.recovery_type) (check_prerequisites options w)
        (check_cluster-by_type w.recovery_type).1
      ∙ rw
          (
            (check_cluster-by_type w.recovery_type).0,
            check_prerequisites-is_success dry unforced,
            unforced,
          )
          refl

abbrev pub without_force : Bool → Bool → Options
without_force dry_run siblings_follow = record {
  dry_run = dry_run;
  force = false;
  siblings_follow = siblings_follow;
}

-- Without "--force", and while the node's record is found the second time too, a dry run of
-- "repmgr standby promote" ends with success exactly when a real run starts the promotion.
pub do_standby_promote-dry_run_iff :
    (w : PromoteWorld) (siblings_follow : Bool)
    → w.node_record_found_again ≡ true
    → is_success (do_standby_promote (without_force true siblings_follow) w).exit_code
      ≡ has_actions (do_standby_promote (without_force false siblings_follow) w)
do_standby_promote-dry_run_iff w siblings_follow found =
    do_standby_promote-dry_run (without_force true siblings_follow) w refl refl
    ∙ sym (do_standby_promote-starts_iff (without_force false siblings_follow) w refl found)
