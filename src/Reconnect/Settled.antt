-- ===== src/Reconnect/Settled.antt =====
-- After the attempts to reconnect the node is marked as up or as down, or a new primary is named.
use repmgr.Base.{
  ℕ, zero, suc, ◌+◌, ◌≡◌, refl, inl, inr, ℤ, ◌==ℤ◌, Bool, true, false, not, ◌||◌, some, arith,
  Bool-cases, Option-cases,
}
use repmgr.Nodes.{NodeStatus, node_status_up, node_status_down, unknown_node_id}
use repmgr.Failover.World.{QueryResult}
use repmgr.Reconnect.{
  Attempts, Reconnection, listen, reachable, try_from, try_primary_reconnect, retry_from,
  try_reconnect,
}
use repmgr.Reconnect.Outcome.{try_from-reached, try_from-notified, try_from-silent}

abbrev pub up_or_down : NodeStatus → Bool
up_or_down node_status_up = true
up_or_down node_status_down = true
up_or_down _ = false

listen-known :
    (answers : ℕ → QueryResult) (rounds j : ℕ) (id : ℤ)
    → (listen answers rounds j).0 ≡ some id
    → (id ==ℤ unknown_node_id) ≡ false
unfolding listen
listen-known answers zero j id h = ground arith
listen-known answers (suc rounds) j id h = ground (arith, listen-known answers rounds (j + 1) id)

module _ (attempts : Attempts) (reconnect_interval : ℕ) (initial : NodeStatus) where
  abbrev pub Settles : Reconnection → Type 0
  Settles r = (up_or_down r.node_status || not (r.new_primary_node_id ==ℤ unknown_node_id)) ≡ true

  try_from-Settles :
      (left i slept : ℕ) → Settles (try_from attempts reconnect_interval initial left i slept)
  unfolding try_from
  try_from-Settles zero i slept = refl
  try_from-Settles (suc zero) i slept = ground arith
  try_from-Settles (suc (suc left)) i slept =
      let heard = listen (attempts.notification i) reconnect_interval 0 in
      elim (Bool-cases (reachable attempts reconnect_interval initial i)) [
        | inl reached ↦
            rw (try_from-reached attempts reconnect_interval initial left i slept reached) refl
        | inr down ↦ elim (Option-cases heard.0) [
          | inl silent ↦
              rw (try_from-silent attempts reconnect_interval initial left i slept down silent)
                (try_from-Settles (suc left) (i + 1) (slept + heard.1))
          | inr (id, told) ↦
              rw (try_from-notified attempts reconnect_interval initial left i slept id down told) (
                ground (arith, listen-known (attempts.notification i) reconnect_interval 0 id told))
        ]
      ]

  pub try_primary_reconnect-Settles :
      (n : ℕ) → Settles (try_primary_reconnect attempts reconnect_interval initial n)
  unfolding try_primary_reconnect
  try_primary_reconnect-Settles n = try_from-Settles n 0 0

  retry_from-Settles :
      (left i slept : ℕ)
      → up_or_down (retry_from attempts reconnect_interval initial left i slept).node_status ≡ true
  unfolding retry_from
  retry_from-Settles zero i slept = refl
  retry_from-Settles (suc zero) i slept = ground arith
  retry_from-Settles (suc (suc left)) i slept =
      ground (arith, retry_from-Settles (suc left) (i + 1) (slept + reconnect_interval))

  pub try_reconnect-Settles :
      (n : ℕ) → up_or_down (try_reconnect attempts reconnect_interval initial n).node_status ≡ true
  unfolding try_reconnect
  try_reconnect-Settles n = retry_from-Settles n 0 0
