-- ===== src/Election/Best.antt =====
-- What the tally of `do_election` holds once every sibling node is tallied, and which node the
-- remaining candidate is.
use repmgr.Base.{
  ◌+◌, ◌≡◌, refl, ◌⊎◌, inl, inr, Bool, false, ◌&&◌, ◌||◌, Option, none, some, List, [], ◌∷◌, count,
  All, Option-cases, ◌∙◌, arith,
}
use repmgr.Nodes.{NodeInfo}
use repmgr.Election.Siblings.{Config, World, Daemon, Tally, in_primary_location}
use repmgr.Election.Rank.{
  Ranks, Ranks-refl, Ranks-trans, compare_candidate-Ranks_left, compare_candidate-Ranks_right,
  compare_candidate-cases,
}
use repmgr.Election.Scan.{rival, candidacy, sees_primary, tallied, tally_all}

-- Some element of the list satisfies the predicate.
abbrev pub Any {ℓ} : {A : Type ℓ} → (A → Type 0) → List A → Type 0
Any P [] = ⊥
Any P (x ∷ xs) = P x ⊎ Any P xs

-- Some node passes the test.
abbrev pub any : (NodeInfo → Bool) → List NodeInfo → Bool
any p [] = false
any p (node ∷ rest) = p node || any p rest

module _ (config : Config) (world : World) (daemon : Daemon) where
  -- The candidate that remains of the given one and the siblings.
  abbrev pub best_of : NodeInfo → List NodeInfo → NodeInfo
  best_of c [] = c
  best_of c (node ∷ rest) = best_of (rival c (candidacy world node)) rest

  -- What the tally holds of the siblings.
  pub record Tallied (t : Tally) (nodes : List NodeInfo) : Type 0 where
    pub visible :
        (tally_all config world daemon t nodes).visible_nodes
        ≡ t.visible_nodes + count world.connects nodes
    pub still_visible :
        (tally_all config world daemon t nodes).nodes_with_primary_still_visible
        ≡ t.nodes_with_primary_still_visible + count (sees_primary config world daemon) nodes
    pub location_seen : (tally_all config world daemon t nodes).primary_location_seen ≡ (
        t.primary_location_seen
        || any (λ node. world.connects node && in_primary_location config world daemon node) nodes)
    pub best : (tally_all config world daemon t nodes).candidate ≡ best_of t.candidate nodes

  pub tally_all-Tallied : (t : Tally) (nodes : List NodeInfo) → Tallied t nodes
  tally_all-Tallied t [] = ground arith
  tally_all-Tallied t (node ∷ rest) =
      ground (arith, tally_all-Tallied (tallied config world daemon t node) rest)

  rival-Ranks : (c : NodeInfo) (o : Option NodeInfo) → Ranks (rival c o) c
  rival-Ranks c none = Ranks-refl c
  rival-Ranks c (some n) = compare_candidate-Ranks_left c n

  pub best_of-Ranks : (c : NodeInfo) (nodes : List NodeInfo) → Ranks (best_of c nodes) c
  best_of-Ranks c [] = Ranks-refl c
  best_of-Ranks c (node ∷ rest) =
      let next = rival c (candidacy world node) in
      Ranks-trans (best_of next rest) next c (best_of-Ranks next rest)
        (rival-Ranks c (candidacy world node))

  -- The node ranks at least as high as the sibling, if that is a promotion candidate.
  abbrev pub Beats : NodeInfo → NodeInfo → Type 0
  Beats c node = (n : NodeInfo) → candidacy world node ≡ some n → Ranks c n

  rival-Beats : (c node : NodeInfo) → Beats (rival c (candidacy world node)) node
  rival-Beats c node n e = rw e (compare_candidate-Ranks_right c n)

  -- The remaining candidate ranks at least as high as every sibling that is a candidate.
  pub best_of-Beats : (c : NodeInfo) (nodes : List NodeInfo) → All (Beats (best_of c nodes)) nodes
  best_of-Beats c [] = tt
  best_of-Beats c (node ∷ rest) =
      let next = rival c (candidacy world node) in
      (
        (λ n e.
            Ranks-trans (best_of next rest) next n (best_of-Ranks next rest)
              (rival-Beats c node n e)),
        best_of-Beats next rest,
      )

  rival-cases :
      (c node : NodeInfo)
      → (rival c (candidacy world node) ≡ c)
        ⊎ (candidacy world node ≡ some (rival c (candidacy world node)))
  rival-cases c node = elim (Option-cases (candidacy world node)) [
    | inl out ↦ inl (rw out)
    | inr (n, e) ↦ elim (compare_candidate-cases c n) [
      | inl same ↦ inl (rw e same)
      | inr new ↦ inr (rw (e, new))
    ]
  ]

  -- The remaining candidate is the given node or one of the siblings.
  pub best_of-cases :
      (c : NodeInfo) (nodes : List NodeInfo)
      → (best_of c nodes ≡ c) ⊎ Any (λ node. candidacy world node ≡ some (best_of c nodes)) nodes
  best_of-cases c [] = inl refl
  best_of-cases c (node ∷ rest) = elim (best_of-cases (rival c (candidacy world node)) rest) [
    | inr later ↦ inr (inr later)
    | inl kept ↦ elim (rival-cases c node) [
      | inl same ↦ inl (kept ∙ same)
      | inr taken ↦ inr (inl (rw kept taken))
    ]
  ]
