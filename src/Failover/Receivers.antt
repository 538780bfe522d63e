-- ===== src/Failover/Receivers.antt =====
-- The wait of `do_primary_failover` until the WAL receivers of all siblings are disconnected.
use repmgr.Base.{
  ℕ, zero, suc, ◌+◌, ◌≡◌, ℤ, pos, ltb_ℤ, Bool, true, false, ◌||◌, Option, none, some, List, [], ◌∷◌,
  if◌then◌else◌, arith,
}
use repmgr.Nodes.{NodeInfo}

abbrev pub receiver_running : Option ℤ → Bool
receiver_running none = false
receiver_running (some pid) = ltb_ℤ (pos 0) pid

-- One round: `connected` is `sibling_node_wal_receiver_connected`, which a round only ever sets.
unfoldable pub check_receivers : (NodeInfo → Option ℤ) → Bool → List NodeInfo → Bool
check_receivers pid connected [] = connected
check_receivers pid connected (node ∷ rest) =
    check_receivers pid (connected || receiver_running (pid node)) rest

-- The rounds from round `i` on; the flag and the number of seconds slept.
unfoldable pub await_receivers : (ℕ → NodeInfo → Option ℤ) → List NodeInfo → ℕ → ℕ → Bool → Bool × ℕ
await_receivers pid nodes zero i connected = (connected, i)
await_receivers pid nodes (suc rounds) i connected =
    let connected' = check_receivers (pid i) connected nodes in
    let rest = await_receivers pid nodes rounds (i + 1) connected' in
    if connected' then rest else (connected', i)

-- Some sibling has a running WAL receiver.
abbrev pub some_running : (NodeInfo → Option ℤ) → List NodeInfo → Bool
some_running pid [] = false
some_running pid (node ∷ rest) = receiver_running (pid node) || some_running pid rest

check_receivers-eq :
    (pid : NodeInfo → Option ℤ) (connected : Bool) (nodes : List NodeInfo)
    → check_receivers pid connected nodes ≡ (connected || some_running pid nodes)
unfolding check_receivers
check_receivers-eq pid connected [] = ground arith
check_receivers-eq pid connected (node ∷ rest) =
    ground (arith, check_receivers-eq pid (connected || receiver_running (pid node)) rest)

await_receivers-connected :
    (pid : ℕ → NodeInfo → Option ℤ) (nodes : List NodeInfo) (rounds i : ℕ)
    → await_receivers pid nodes rounds i true ≡ (true, i + rounds)
unfolding await_receivers
await_receivers-connected pid nodes zero i = ground arith
await_receivers-connected pid nodes (suc rounds) i = ground (
  arith,
  check_receivers-eq (pid i) true nodes,
  await_receivers-connected pid nodes rounds (i + 1),
)

-- The first round alone decides the wait: if some sibling's WAL receiver runs then, the wait takes
-- the whole timeout and ends with a receiver reported as connected, whatever the later rounds see;
-- if none runs, it ends at once.
pub await_receivers_first_round :
    (pid : ℕ → NodeInfo → Option ℤ) (nodes : List NodeInfo) (timeout : ℕ)
    → await_receivers pid nodes (suc timeout) 0 false
      ≡ (if some_running (pid 0) nodes then (true, suc timeout) else (false, 0))
unfolding await_receivers
await_receivers_first_round pid nodes timeout =
    ground
      (arith, check_receivers-eq (pid 0) false nodes, await_receivers-connected pid nodes timeout 1)
