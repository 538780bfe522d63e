-- ===== src/Election/Quorum.antt =====
-- Two standbys of one cluster that each win their election have a node in common that both reach,
-- so that a partitioned network has at most one winner.
use mathlib.Core.Logic.{∥∥₁_elim}
use mathlib.Core.List.{Perm, Permᴰ}
use native.Mathlib.Nat.{ℕ_set}
use repmgr.Base.{
  ◌+◌, ◌*◌, ◌<◌, ◌≤◌, ◌≡◌, refl, ap, ◌∙◌, inl, inr, ◌==ℤ◌, ==ℤ_iff, Bool, true, ◌&&◌, ◌||◌, List,
  [], ◌∷◌, length, count, Bool-cases, arith,
}
use repmgr.Nodes.{NodeInfo}
use repmgr.Election.Siblings.{Config, World, Daemon, election_won}
use repmgr.Election.Decide.{do_election}
use repmgr.Election.Best.{Any}
use repmgr.Election.Winner.{do_election-Victory}

count-Permᴰ {ℓ} : {A : Type ℓ} {l m : List A} (p : A → Bool) → Permᴰ l m → count p l ≡ count p m
count-Permᴰ p Permᴰ.nil = refl
count-Permᴰ p (Permᴰ.cons e d) = ground (arith, count-Permᴰ p d, ap p e)
count-Permᴰ p (Permᴰ.swap e f) = ground (arith, ap p e, ap p f)
count-Permᴰ p (Permᴰ.trans d e) = count-Permᴰ p d ∙ count-Permᴰ p e

count-Perm : {l m : List NodeInfo} (p : NodeInfo → Bool) → Perm l m → count p l ≡ count p m
count-Perm p h = ∥∥₁_elim h (ℕ_set _ _) (count-Permᴰ p)

length-Permᴰ {ℓ} : {A : Type ℓ} {l m : List A} → Permᴰ l m → length l ≡ length m
length-Permᴰ Permᴰ.nil = refl
length-Permᴰ (Permᴰ.cons e d) = omega (arith, length-Permᴰ d)
length-Permᴰ (Permᴰ.swap e f) = refl
length-Permᴰ (Permᴰ.trans d e) = length-Permᴰ d ∙ length-Permᴰ e

length-Perm : {l m : List NodeInfo} → Perm l m → length l ≡ length m
length-Perm h = ∥∥₁_elim h (ℕ_set _ _) length-Permᴰ

abbrev both : (NodeInfo → Bool) → (NodeInfo → Bool) → NodeInfo → Bool
both p q n = p n && q n

-- Two tests that together pass more often than the list is long share an element.
count-pigeonhole :
    (p q : NodeInfo → Bool) (l : List NodeInfo)
    → length l < count p l + count q l
    → Any (λ n. both p q n ≡ true) l
count-pigeonhole p q [] h = absurd (omega arith)
count-pigeonhole p q (x ∷ xs) h = elim (Bool-cases (both p q x)) [
  | inl shared ↦ inl shared
  | inr apart ↦ inr (count-pigeonhole p q xs (ground arith))
]

count-le-or : (p q : NodeInfo → Bool) (l : List NodeInfo) → count p l ≤ count (λ n. q n || p n) l
count-le-or p q [] = omega arith
count-le-or p q (x ∷ xs) = ground (arith, count-le-or p q xs)

-- The node is the local one, or answers a connection attempt.
abbrev pub reaches : World → Daemon → NodeInfo → Bool
reaches world daemon n = n.node_id ==ℤ daemon.local_node_info.node_id || world.connects n

winner-reaches :
    (config : Config) (world : World) (daemon : Daemon) (row : NodeInfo)
    → row.node_id ≡ daemon.local_node_info.node_id
    → (do_election config world daemon).result ≡ election_won
    → length (row ∷ world.active_sibling_nodes)
      < 2 * count (reaches world daemon) (row ∷ world.active_sibling_nodes)
winner-reaches config world daemon row self won =
    let v = (do_election-Victory config world daemon won).1 in
    let self' = (==ℤ_iff row.node_id daemon.local_node_info.node_id).1 self in
    ground (
      arith,
      v.quorum,
      self',
      count-le-or world.connects (λ n. n.node_id ==ℤ daemon.local_node_info.node_id)
          world.active_sibling_nodes,
    )

-- Two standbys of one set of registered nodes, in any order, that both win their election, with or
-- without the same settings, have a node that both reach. So of the parts of a partitioned network,
-- at most one has a winner.
pub quorum_overlap :
    (config_a config_b : Config) (world_a world_b : World) (a b : Daemon) (row_a row_b : NodeInfo)
    → row_a.node_id ≡ a.local_node_info.node_id
    → row_b.node_id ≡ b.local_node_info.node_id
    → Perm (row_a ∷ world_a.active_sibling_nodes) (row_b ∷ world_b.active_sibling_nodes)
    → (do_election config_a world_a a).result ≡ election_won
    → (do_election config_b world_b b).result ≡ election_won
    → Any
        (λ n. (reaches world_a a n && reaches world_b b n) ≡ true)
        (row_a ∷ world_a.active_sibling_nodes)
quorum_overlap config_a config_b world_a world_b a b row_a row_b self_a self_b same won_a won_b =
    let nodes = row_a ∷ world_a.active_sibling_nodes in
    count-pigeonhole (reaches world_a a) (reaches world_b b) nodes (
      omega (
        arith,
        winner-reaches config_a world_a a row_a self_a won_a,
        winner-reaches config_b world_b b row_b self_b won_b,
        count-Perm (reaches world_b b) same,
        length-Perm same,
      ))
