-- ===== src/Failover/Actions.antt =====
-- In which order `do_primary_failover` acts on the cluster.
use repmgr.Base.{
  ℕ, zero, suc, ◌+◌, ◌≤◌, ◌≡◌, refl, ap, ◌⊎◌, inl, inr, ℤ, ◌==ℤ◌, Bool, true, false, not, ◌&&◌,
  ◌||◌, List, [], ◌∷◌, ◌++◌, count, arith,
}
use repmgr.Nodes.{NodeInfo, election_rerun_notification}
use repmgr.Templates.{parse_follow_command}
use repmgr.Election.Siblings.{Daemon}
use repmgr.Failover.World.{
  FailoverState, failover_promoted, failover_primary_reappeared, Settings, Surroundings, Exit,
  exited, signalled, Action, disable_wal_receiver, enable_wal_receiver, run_promote_command,
  increment_current_term, run_follow_command, notify_follow_primary, Done,
}
use repmgr.Failover.Steps.{
  command_failed, run_promotion, promote_self, notify_followers, finish_follow, run_follow,
  follow_new_primary,
}

-- Whether the WAL receiver is enabled after the actions, if it was before them.
abbrev pub receiver_enabled : Bool → List Action → Bool
receiver_enabled on [] = on
receiver_enabled on (disable_wal_receiver ∷ rest) = receiver_enabled false rest
receiver_enabled on (enable_wal_receiver ∷ rest) = receiver_enabled true rest
receiver_enabled on (_ ∷ rest) = receiver_enabled on rest

-- Every notification tells a node to rerun the election, to go on with the lost primary, or to
-- follow a new one after the electoral term has been incremented; `promoted` says whether it has.
abbrev pub announces : ℤ → Bool → List Action → Bool
announces lost promoted [] = true
announces lost promoted (increment_current_term ∷ rest) = announces lost true rest
announces lost promoted (notify_follow_primary node id ∷ rest) =
    (id ==ℤ election_rerun_notification || id ==ℤ lost || promoted) && announces lost promoted rest
announces lost promoted (_ ∷ rest) = announces lost promoted rest

-- The command has ended without an error code: with status 0, or by a signal.
abbrev pub no_error : Exit → Bool
no_error (exited zero) = true
no_error (exited (suc status)) = false
no_error signalled = true

-- Every increment of the electoral term has a promote command before it that has ended without an
-- error code; `ran` says whether there is one that no increment has come after.
abbrev pub earned : Bool → List Action → Bool
earned ran [] = true
earned ran (run_promote_command exit ∷ rest) = earned (no_error exit) rest
earned ran (increment_current_term ∷ rest) = ran && earned false rest
earned ran (_ ∷ rest) = earned ran rest

-- The actions increment the electoral term in no case.
abbrev pub Unearned : List Action → Type 0
Unearned l = (ran : Bool) → earned ran l ≡ true

abbrev pub promotes : Action → Bool
promotes (run_promote_command exit) = true
promotes _ = false

-- The actions neither switch the WAL receiver nor announce anything that is not to be announced,
-- and promote at most once; `l` is what comes after them.
pub record Quiet (lost : ℤ) (a : List Action) : Type 0 where
  pub receiver :
      (l : List Action) (on : Bool) → receiver_enabled on (a ++ l) ≡ receiver_enabled on l
  pub announced :
      (l : List Action) (promoted : Bool)
      → announces lost promoted (a ++ l) ≡ announces lost promoted l
  pub promoted_once : (l : List Action) → count promotes (a ++ l) ≤ 1 + count promotes l
  pub unearned : (l : List Action) → Unearned l → Unearned (a ++ l)

-- As `Quiet`, with no promotion, and with announcements that the flag allows.
pub record Told (lost : ℤ) (promoted : Bool) (a : List Action) : Type 0 where
  pub receiver :
      (l : List Action) (on : Bool) → receiver_enabled on (a ++ l) ≡ receiver_enabled on l
  pub announced : (l : List Action) → announces lost promoted (a ++ l) ≡ announces lost promoted l
  pub none_promoted : (l : List Action) → count promotes (a ++ l) ≡ count promotes l
  pub unearned : (l : List Action) → Unearned l → Unearned (a ++ l)

pub Told-notify_followers :
    (around : Surroundings) (id lost : ℤ) (promoted : Bool) (nodes : List NodeInfo)
    → (id ==ℤ election_rerun_notification || id ==ℤ lost || promoted) ≡ true
    → Told lost promoted (notify_followers around nodes id)
unfolding notify_followers
Told-notify_followers around id lost promoted [] h = record {
  receiver = λ l on. refl;
  announced = λ l. refl;
  none_promoted = λ l. refl;
  unearned = λ l h ran. h ran;
}
Told-notify_followers around id lost promoted (node ∷ rest) h =
    let ih = Told-notify_followers around id lost promoted rest h in
    record {
      receiver = λ l on. ground (arith, ih.receiver l on);
      announced = λ l. ground (arith, ih.announced l, h);
      none_promoted = λ l. ground (arith, ih.none_promoted l);
      unearned = λ l u ran. ground (arith, ih.unearned l u ran);
    }

abbrev pub is_promoted : FailoverState → Bool
is_promoted failover_promoted = true
is_promoted _ = false

-- What the stage before the final `switch` has done, in a failover from the primary `lost`.
pub record Orderly (lost : ℤ) (d : Done) : Type 0 where
  pub shape :
      ((d.state ≡ failover_promoted)
        × ((exit : Exit) × (no_error exit ≡ true)
            × (d.actions ≡ run_promote_command exit ∷ increment_current_term ∷ [])))
      ⊎ ((is_promoted d.state ≡ false) × Quiet lost d.actions)
  pub left : d.exits ≡ true → is_promoted d.state ≡ false
  pub upstream : d.state ≡ failover_primary_reappeared → d.daemon.upstream_node_info.node_id ≡ lost

pub Quiet-nil : (lost : ℤ) → Quiet lost []
Quiet-nil lost = record {
  unearned = λ l h ran. h ran;
  receiver = λ l on. refl;
  announced = λ l p. refl;
  promoted_once = λ l. omega arith;
}

Quiet-run_promote_command : (lost : ℤ) (exit : Exit) → Quiet lost (run_promote_command exit ∷ [])
Quiet-run_promote_command lost exit = record {
  unearned = λ l h ran. h (no_error exit);
  receiver = λ l on. refl;
  announced = λ l p. refl;
  promoted_once = λ l. omega arith;
}

Quiet-run_follow_command : (lost : ℤ) (c : List ℕ) → Quiet lost (run_follow_command c ∷ [])
Quiet-run_follow_command lost c = record {
  unearned = λ l h ran. h ran;
  receiver = λ l on. refl;
  announced = λ l p. refl;
  promoted_once = λ l. omega arith;
}

module _ (settings : Settings) (around : Surroundings) where
  no_error-command_failed : (exit : Exit) → command_failed exit ≡ not (no_error exit)
  no_error-command_failed (exited zero) = refl
  no_error-command_failed (exited (suc status)) = ground arith
  no_error-command_failed signalled = refl

  promote_self-cases :
      (daemon : Daemon)
      → let d = promote_self settings around daemon in
        (d.daemon.upstream_node_info ≡ daemon.upstream_node_info)
        × (((d.state ≡ failover_promoted)
              × (d.exits ≡ false)
              × (no_error around.promote_exit ≡ true)
              × (d.actions ≡ run_promote_command around.promote_exit ∷ increment_current_term ∷ []))
            ⊎ ((is_promoted d.state ≡ false)
                × ((d.actions ≡ []) ⊎ (d.actions ≡ run_promote_command around.promote_exit ∷ []))))
  unfolding promote_self run_promotion
  promote_self-cases daemon = ground (arith, no_error-command_failed around.promote_exit)

  pub Orderly-promote_self :
      (daemon : Daemon)
      → Orderly daemon.upstream_node_info.node_id (promote_self settings around daemon)
  Orderly-promote_self daemon =
      let lost = daemon.upstream_node_info.node_id in
      let (same, c) = promote_self-cases daemon in
      record {
        shape = elim c [
          | inl (promoted, _, ended, ran) ↦ inl (promoted, (around.promote_exit, ended, ran))
          | inr (not_promoted, inl e) ↦ inr (not_promoted, rw e (Quiet-nil lost))
          | inr (not_promoted, inr e) ↦
              inr (not_promoted, rw e (Quiet-run_promote_command lost around.promote_exit))
        ];
        left = λ h. elim c [
          | inl (_, on, _, _) ↦ absurd (ground (arith, h, on))
          | inr (not_promoted, _) ↦ not_promoted
        ];
        upstream = λ h. ap (λ (n : NodeInfo). n.node_id) same;
      }

  follow_new_primary-cases :
      (daemon : Daemon) (id : ℤ)
      → let d = follow_new_primary settings around daemon id in
        let c = parse_follow_command settings.follow_command id in
        (is_promoted d.state ≡ false)
        × (d.state ≡ failover_primary_reappeared
            → d.daemon.upstream_node_info ≡ daemon.upstream_node_info)
        × ((d.actions ≡ []) ⊎ (d.actions ≡ run_follow_command c ∷ []))
  unfolding follow_new_primary run_follow finish_follow
  follow_new_primary-cases daemon id = ground arith

  pub Orderly-follow_new_primary :
      (daemon : Daemon) (id : ℤ)
      → Orderly daemon.upstream_node_info.node_id (follow_new_primary settings around daemon id)
  Orderly-follow_new_primary daemon id =
      let lost = daemon.upstream_node_info.node_id in
      let (not_promoted, same, c) = follow_new_primary-cases daemon id in
      record {
        shape = inr (
          not_promoted,
          (elim c [
            | inl e ↦ rw e (Quiet-nil lost)
            | inr e ↦
                rw e
                  (Quiet-run_follow_command lost (parse_follow_command settings.follow_command id))
          ]),
        );
        left = λ h. not_promoted;
        upstream = λ h. ap (λ (n : NodeInfo). n.node_id) (same h);
      }
