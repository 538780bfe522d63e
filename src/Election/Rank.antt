-- ===== src/Election/Rank.antt =====
-- The order of the promotion candidates of `do_election`: the node with more WAL ranks higher,
-- then the one with the higher priority, then the one with the lower node ID.
use repmgr.Base.{◌<◌, ◌≤◌, ◌≡◌, ◌⊎◌, ◌<ℤ◌, ◌≤ℤ◌, eq_of_parts, arith}
use repmgr.Nodes.{NodeInfo}
use repmgr.Election.Siblings.{compare_candidate}

-- `a` ranks at least as high as `b`.
abbrev pub Ranks : NodeInfo → NodeInfo → Type 0
Ranks a b =
    (b.last_wal_receive_lsn < a.last_wal_receive_lsn)
    ⊎ ((b.last_wal_receive_lsn ≤ a.last_wal_receive_lsn)
        × ((b.priority <ℤ a.priority) ⊎ ((b.priority ≤ℤ a.priority) × (a.node_id ≤ℤ b.node_id))))

pub Ranks-refl : (a : NodeInfo) → Ranks a a
Ranks-refl a = ground arith

pub Ranks-trans : (a b c : NodeInfo) → Ranks a b → Ranks b c → Ranks a c
Ranks-trans a b c p q = ground arith

-- Two nodes that rank at least as high as one another have one ID.
pub Ranks-antisym : (a b : NodeInfo) → Ranks a b → Ranks b a → a.node_id ≡ b.node_id
Ranks-antisym a b p q = eq_of_parts a.node_id b.node_id (ground arith)

pub compare_candidate-Ranks_left : (c n : NodeInfo) → Ranks (compare_candidate c n) c
unfolding compare_candidate
compare_candidate-Ranks_left c n = ground arith

pub compare_candidate-Ranks_right : (c n : NodeInfo) → Ranks (compare_candidate c n) n
unfolding compare_candidate
compare_candidate-Ranks_right c n = ground arith

pub compare_candidate-cases :
    (c n : NodeInfo) → (compare_candidate c n ≡ c) ⊎ (compare_candidate c n ≡ n)
unfolding compare_candidate
compare_candidate-cases c n = ground arith
