-- ===== src/Reconnect.antt =====
-- `try_primary_reconnect` of repmgrd-physical.c: the attempts to reach a primary again before a
-- failover, between which repmgrd listens for a notification of a new primary; and `try_reconnect`
-- of repmgrd.c, the attempts for any other node, between which it only sleeps.
pub mod Outcome
pub mod Plain
pub mod Settled
use repmgr.Base.{
  ℕ, zero, suc, ◌+◌, ◌-◌, ◌*◌, ◌≤◌, ◌≡◌, refl, sym, ap, ◌∙◌, ◌↔◌, inl, inr, ℤ, ◌==ℤ◌, Bool, true,
  false, not, ◌&&◌, Option, none, some, if◌then◌else◌, arith, Bool-cases, Option-cases,
}
use repmgr.Nodes.{NodeStatus, node_status_up, node_status_down, unknown_node_id}
use repmgr.Failover.World.{QueryResult}
use repmgr.Failover.Steps.{get_new_primary}

-- What each attempt finds: whether the server answers, whether a connection to it can be made,
-- and what has become of the original connection. `notification` takes the attempt and the
-- second after it.
pub record Attempts : Type 0 where
  pub server_available : ℕ → Bool
  pub connection_ok : ℕ → Bool
  pub original_bad : ℕ → Bool
  pub ping_ok : ℕ → Bool
  pub notification : ℕ → ℕ → QueryResult

pub record Reconnection : Type 0 where
  pub node_status : NodeStatus
  pub uses_new_connection : Bool
  pub new_primary_node_id : ℤ
  pub seconds_slept : ℕ

-- The seconds from second `j` on, of which `rounds` are left: the ID of a new primary, and the
-- seconds slept.
unfoldable pub listen : (ℕ → QueryResult) → ℕ → ℕ → Option ℤ × ℕ
unfolding get_new_primary
listen answers zero j = (none, j)
listen answers (suc rounds) j =
    let (success, id) = get_new_primary (answers j) in
    let rest = listen answers rounds (j + 1) in
    if success && not (id ==ℤ unknown_node_id) then (some id, j) else rest

module _ (attempts : Attempts) (reconnect_interval : ℕ) (initial : NodeStatus) where
  abbrev pub reachable : ℕ → Bool
  reachable i = attempts.server_available i && attempts.connection_ok i

  abbrev pub reconnected : ℕ → ℕ → Reconnection
  reconnected i slept = record {
    node_status = node_status_up;
    uses_new_connection = if attempts.original_bad i then true else not (attempts.ping_ok i);
    new_primary_node_id = unknown_node_id;
    seconds_slept = slept;
  }

  abbrev pub gave_up : ℕ → Reconnection
  gave_up slept = record {
    node_status = node_status_down;
    uses_new_connection = false;
    new_primary_node_id = unknown_node_id;
    seconds_slept = slept;
  }

  abbrev pub notified : ℤ → ℕ → Reconnection
  notified id slept = record {
    node_status = initial;
    uses_new_connection = false;
    new_primary_node_id = id;
    seconds_slept = slept;
  }

  -- The attempts from attempt `i` on, of which `left` are left.
  unfoldable pub try_from : ℕ → ℕ → ℕ → Reconnection
  unfolding listen
  try_from zero i slept = gave_up slept
  try_from (suc zero) i slept = if reachable i then reconnected i slept else gave_up slept
  try_from (suc (suc left)) i slept =
      let (heard, seconds) = listen (attempts.notification i) reconnect_interval 0 in
      let rest = try_from (suc left) (i + 1) (slept + seconds) in
      if reachable i
      then reconnected i slept
      else elim heard [ some id ↦ notified id (slept + seconds) | none ↦ rest ]

  unfoldable pub try_primary_reconnect : ℕ → Reconnection
  unfolding try_from
  try_primary_reconnect reconnect_attempts = try_from reconnect_attempts 0 0

  unfoldable pub retry_from : ℕ → ℕ → ℕ → Reconnection
  retry_from zero i slept = gave_up slept
  retry_from (suc zero) i slept = if reachable i then reconnected i slept else gave_up slept
  retry_from (suc (suc left)) i slept =
      let rest = retry_from (suc left) (i + 1) (slept + reconnect_interval) in
      if reachable i then reconnected i slept else rest

  unfoldable pub try_reconnect : ℕ → Reconnection
  unfolding retry_from
  try_reconnect reconnect_attempts = retry_from reconnect_attempts 0 0
