-- ===== src/Client/Join.antt =====
-- `check_standby_join` of repmgr-client.c: the wait for a node to attach to its upstream.
pub mod Attached
use repmgr.Base.{ℕ, zero, suc, Bool, true, false, ltb, if◌then◌else◌}
use repmgr.Nodes.{NodeAttached, node_attached}

pub data JoinStatus : Type 0 where
  join_success join_fail_no_ping join_fail_no_replication : JoinStatus

-- The answers, by the round in which they are asked for, and the two settings.
pub record JoinWorld : Type 0 where
  pub server_available : ℕ → Bool
  pub downstream_attached : ℕ → NodeAttached
  pub standby_reconnect_timeout : ℕ
  pub node_rejoin_timeout : ℕ

abbrev pub is_attached : NodeAttached → Bool
is_attached node_attached = true
is_attached _ = false

-- The rounds from `i` on in which the upstream is asked, `fuel` of them.
unfoldable pub await_attached : JoinWorld → ℕ → ℕ → JoinStatus
await_attached w zero i = join_fail_no_replication
await_attached w (suc fuel) i =
    let later = await_attached w fuel (suc i) in
    if ltb i w.node_rejoin_timeout
    then (if is_attached (w.downstream_attached i) then join_success else later)
    else join_fail_no_replication

-- The rounds from `i` on in which the server is tried, `fuel` of them; the second loop goes on from
-- the round in which it has answered.
unfoldable pub check_standby_join_from : JoinWorld → ℕ → ℕ → JoinStatus
unfolding await_attached
check_standby_join_from w zero i = join_fail_no_ping
check_standby_join_from w (suc fuel) i =
    let later = check_standby_join_from w fuel (suc i) in
    let attached = await_attached w w.node_rejoin_timeout i in
    if ltb i w.standby_reconnect_timeout
    then (if w.server_available i then attached else later)
    else join_fail_no_ping

unfoldable pub check_standby_join : JoinWorld → JoinStatus
unfolding check_standby_join_from
check_standby_join w = check_standby_join_from w w.standby_reconnect_timeout 0

abbrev pub joined : JoinStatus → Bool
joined join_success = true
joined _ = false
