-- ===== src/Election/Agreement.antt =====
-- Two standbys that hold an election at the same time: they do not both win it.
use repmgr.Base.{◌≡◌, ◌≢◌, sym, ◌∙◌, inl, inr, some, List, [], ◌∷◌, All, arith}
use mathlib.Core.Path.{subst}
use repmgr.Nodes.{NodeInfo}
use repmgr.Election.Siblings.{Config, World, Daemon, election_won}
use repmgr.Election.Decide.{do_election}
use repmgr.Election.Rank.{Ranks, Ranks-antisym}
use repmgr.Election.Scan.{candidacy}
use repmgr.Election.Best.{Any, best_of, best_of-Beats, best_of-cases}
use repmgr.Election.Outcome.{prepared, contender, Victory}
use repmgr.Election.Winner.{do_election-Victory}

pub All-Any {ℓ} :
    {A : Type ℓ} {P Q : A → Type 0} (l : List A) → All P l → Any Q l → (a : A) × P a × Q a
All-Any [] p q = absurd q
All-Any (x ∷ xs) p (inl q) = (x, p.0, q)
All-Any (x ∷ xs) p (inr q) = All-Any xs p.1 q

node_id-candidacy :
    (world : World) (n x : NodeInfo) → candidacy world n ≡ some x → x.node_id ≡ n.node_id
node_id-candidacy world n x h = ground arith

-- The nodes of the list have other IDs than this one.
abbrev pub Others : NodeInfo → List NodeInfo → Type 0
Others node nodes = All (λ n. n.node_id ≢ node.node_id) nodes

-- Among the siblings is a promotion candidate with the ID, LSN and priority of this node.
abbrev pub Knows : World → NodeInfo → Type 0
Knows world node =
    Any
      (λ n.
        (x : NodeInfo) × (candidacy world n ≡ some x)
        × (x.node_id ≡ node.node_id)
        × (x.last_wal_receive_lsn ≡ node.last_wal_receive_lsn)
        × (x.priority ≡ node.priority))
      world.active_sibling_nodes

module _ (config : Config) (world : World) (daemon : Daemon) where
  abbrev me : NodeInfo
  me = contender world daemon

  best-eq_me :
      Others me world.active_sibling_nodes
      → Victory config world (prepared world daemon) world.active_sibling_nodes
      → best_of config world (prepared world daemon) me world.active_sibling_nodes ≡ me
  best-eq_me others v =
      elim (best_of-cases config world (prepared world daemon) me world.active_sibling_nodes) [
        | inl same ↦ same
        | inr other ↦
            let (n, ne, taken) = All-Any world.active_sibling_nodes others other in
            absurd (ne (sym (node_id-candidacy world n _ taken) ∙ v.best))
      ]

  pub winner-Ranks :
      (node : NodeInfo)
      → (do_election config world daemon).result ≡ election_won
      → Others me world.active_sibling_nodes
      → Knows world node
      → Ranks me node
  winner-Ranks node won others knows =
      let v = (do_election-Victory config world daemon won).1 in
      let beats =
        best_of-Beats config world (prepared world daemon) me world.active_sibling_nodes in
      let (n, b, (x, e, same_id, same_lsn, same_priority)) =
        All-Any world.active_sibling_nodes beats knows in
      let r : Ranks me x = subst (λ c. Ranks c x) (best-eq_me others v) (b x e) in ground (arith, r)

-- Two standbys with different IDs that reach one another, and read one another's LSN and priority
-- right, do not both win the election, whatever their settings and whatever else they see.
pub election_agreement :
    (config_a config_b : Config) (world_a world_b : World) (a b : Daemon)
    → a.local_node_info.node_id ≢ b.local_node_info.node_id
    → Others (contender world_a a) world_a.active_sibling_nodes
    → Others (contender world_b b) world_b.active_sibling_nodes
    → Knows world_a (contender world_b b)
    → Knows world_b (contender world_a a)
    → (do_election config_a world_a a).result ≡ election_won
    → (do_election config_b world_b b).result ≢ election_won
election_agreement config_a config_b world_a world_b a b ne others_a others_b a_knows b_knows won_a
      won_b =
    ne (
      Ranks-antisym (contender world_a a) (contender world_b b)
        (winner-Ranks config_a world_a a (contender world_b b) won_a others_a a_knows)
        (winner-Ranks config_b world_b b (contender world_a a) won_b others_b b_knows))
