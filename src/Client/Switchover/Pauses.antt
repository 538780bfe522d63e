-- ===== src/Client/Switchover/Pauses.antt =====
-- The state that a switchover leaves the instances of repmgrd in.
use repmgr.Base.{
  ◌≡◌, refl, ap, ℤ, ◌==ℤ◌, Bool, true, false, not, ◌&&◌, ◌||◌, inl, inr, ==ℤ_iff, Bool-cases, List,
  [], ◌∷◌, ◌++◌, ltb, if◌then◌else◌, arith,
}
use repmgr.Client.Switchover.World.{
  ActiveNode, RepmgrdAnswer, SwitchoverAction, repmgrd_pause, list_stop_actions, stop_primary,
  promotion, checkpoint, node_rejoin, switchover_notification, sibling, drop_replication_slot,
}
use repmgr.Client.Switchover.Repmgrd.{repmgrd_info, survey, pause_instances, unpause_instances}

-- Whether the instance on the node `id` is paused after some actions, where `paused` says whether
-- it was before.
unfoldable pub paused_after : ℤ → Bool → List SwitchoverAction → Bool
paused_after id paused [] = paused
paused_after id paused (repmgrd_pause node_id value ∷ rest) =
    paused_after id (if node_id ==ℤ id then value else paused) rest
paused_after id paused (action ∷ rest) = paused_after id paused rest

abbrev pub listed : ℤ → List ActiveNode → Bool
listed id [] = false
listed id (node ∷ rest) = let later = listed id rest in node.node_id ==ℤ id || later

-- The instance is found running and not paused.
abbrev pub pausable : RepmgrdAnswer → Bool
pausable answer = answer.connects && answer.is_running && not answer.is_paused

-- The instance was not found paused, or all are to run again.
abbrev pub unpausable : Bool → RepmgrdAnswer → Bool
unpausable force answer = force || not (answer.connects && answer.is_paused)

pub paused_after-append :
    (id : ℤ) (p : Bool) (l m : List SwitchoverAction)
    → paused_after id p (l ++ m) ≡ paused_after id (paused_after id p l) m
unfolding paused_after
paused_after-append id p [] m = refl
paused_after-append id p (repmgrd_pause node_id value ∷ rest) m =
    paused_after-append id (if node_id ==ℤ id then value else p) rest m
paused_after-append id p (list_stop_actions ∷ rest) m = paused_after-append id p rest m
paused_after-append id p (stop_primary ∷ rest) m = paused_after-append id p rest m
paused_after-append id p (promotion a ∷ rest) m = paused_after-append id p rest m
paused_after-append id p (checkpoint a ∷ rest) m = paused_after-append id p rest m
paused_after-append id p (node_rejoin a ∷ rest) m = paused_after-append id p rest m
paused_after-append id p (switchover_notification a ∷ rest) m = paused_after-append id p rest m
paused_after-append id p (sibling a ∷ rest) m = paused_after-append id p rest m
paused_after-append id p (drop_replication_slot ∷ rest) m = paused_after-append id p rest m

module _ (repmgrd : ℤ → RepmgrdAnswer) (id : ℤ) where
  same_answer : (node_id : ℤ) → (node_id ==ℤ id) ≡ true → repmgrd node_id ≡ repmgrd id
  same_answer node_id h = ap repmgrd ((==ℤ_iff node_id id).0 h)

  pub survey-paused :
      (nodes : List ActiveNode) (p : Bool)
      → paused_after id p (pause_instances false (survey repmgrd nodes).infos)
        ≡ (p || (listed id nodes && pausable (repmgrd id)))
  unfolding paused_after pause_instances survey repmgrd_info
  survey-paused [] p = ground arith
  survey-paused (node ∷ rest) p = elim (Bool-cases (node.node_id ==ℤ id)) [
    | inl same ↦
        ground (
          arith,
          same,
          same_answer node.node_id same,
          survey-paused rest p,
          survey-paused rest true,
        )
    | inr other ↦ ground (arith, other, survey-paused rest p)
  ]

  pub survey-unpaused :
      (force : Bool) (reconnects : ℤ → Bool) (nodes : List ActiveNode) (p : Bool)
      → paused_after id p (unpause_instances force reconnects (survey repmgrd nodes).infos)
        ≡ (p && not (listed id nodes && (reconnects id && unpausable force (repmgrd id))))
  unfolding paused_after unpause_instances survey repmgrd_info
  survey-unpaused force reconnects [] p = ground arith
  survey-unpaused force reconnects (node ∷ rest) p = elim (Bool-cases (node.node_id ==ℤ id)) [
    | inl same ↦ ground (
      arith,
      same,
      same_answer node.node_id same,
      ap reconnects ((==ℤ_iff node.node_id id).0 same),
      survey-unpaused force reconnects rest p,
      survey-unpaused force reconnects rest false,
    )
    | inr other ↦ ground (arith, other, survey-unpaused force reconnects rest p)
  ]

  -- An instance that runs on a node that can be reached is counted.
  pub survey-running :
      (nodes : List ActiveNode)
      → (listed id nodes && ((repmgrd id).connects && (repmgrd id).is_running)) ≡ true
      → ltb 0 (survey repmgrd nodes).repmgrd_running_count ≡ true
  unfolding survey repmgrd_info
  survey-running [] h = ground (arith, h)
  survey-running (node ∷ rest) h = elim (Bool-cases (node.node_id ==ℤ id)) [
    | inl same ↦ ground (arith, h, same, same_answer node.node_id same)
    | inr other ↦ ground (arith, h, other, survey-running rest (ground (arith, h, other)))
  ]
