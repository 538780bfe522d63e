-- ===== src/Examples/Clients.antt =====
-- The client's checks and promotions at concrete inputs.
use repmgr.Base.{arith, ◌≡◌, ◌↔◌, refl, ℕ, zero, pos, true, false, ◌&&◌, some, [], ◌∷◌, codes}
use repmgr.Nodes.{ServerType, standby}
use repmgr.Election.Follow.{FollowWorld, SystemIdentification, check_node_can_follow}
use repmgr.Client.Attach.{LocalSystem, check_node_can_attach, check_node_can_attach-follow}
use repmgr.Client.Promote.Siblings.{
  Options, Sibling, standby_follow, notify_witness, register_witness,
}
use repmgr.Nodes.{RecoveryType, rectype_primary, rectype_standby}
use repmgr.Client.Promote.Run.{
  PromoteWorld, pg_promote, update_node_record, to_sibling, do_standby_promote, exits,
  err_bad_config,
}
use repmgr.Client.Promote.Start.{prerequisites}
use repmgr.Client.Promote.Wait.{Seen}
use repmgr.Client.Promote.Outcome.{returned, promote_succeeds, do_standby_promote-returned_iff}

abbrev pub local : LocalSystem
local = record { tli = 1; xlogpos = 550; system_identifier = 77 }

abbrev system : ℕ → SystemIdentification
system timeline = record { system_identifier = 77; timeline = timeline }

-- The target was promoted to timeline 2, which forked off at 500.
abbrev pub target : FollowWorld
target = record {
  local_connects = true;
  local_identification = some (system 1);
  target_connects = true;
  target_identification = some (system 2);
  target_current_lsn = 600;
  timeline_end = λ t. some 500;
}

check_node_can_attach-follow_example :
    check_node_can_attach target local true false ≡ check_node_can_follow target 550
check_node_can_attach-follow_example = check_node_can_attach-follow target local true refl refl refl

rewound : check_node_can_attach target local true true ≡ true
unfolding check_node_can_attach
rewound = refl

abbrev sibling : ℕ → ServerType → Sibling
sibling id type = record {
  node_id = pos id;
  type = type;
  slot_name = codes "slot";
  reachable = false;
}

-- Node 3 is a standby and node 4 a witness; the promotion is complete after one second.
abbrev cluster : ℕ → PromoteWorld
cluster senders = record {
  recovery_type = rectype_standby;
  node_record_found = true;
  server_version_num = 120000;
  receiving_streamed_wal = some true;
  wal_replay_paused = λ pending. false;
  active_primary = false;
  available_wal_senders = pos senders;
  available_slots = pos 2;
  sibling_nodes = sibling 3 standby ∷ sibling 4 ServerType.witness ∷ [];
  ssh_ok = λ node. true;
  witness_connects = λ node. true;
  node_record_found_again = true;
  service_promote_command = [];
  can_execute_pg_promote = true;
  pg_promote_executed = true;
  promote_command_status = pos 0;
  promote_check_timeout = 60;
  promote_check_interval = 1;
  recovery_at = λ second. primary_later second;
  record_updated = true;
}
  where
    primary_later : ℕ → RecoveryType
    primary_later zero = rectype_standby
    primary_later second = rectype_primary

abbrev forced : Options
forced = record { dry_run = false; force = true; siblings_follow = true }

promoted :
    (do_standby_promote forced (cluster 2)).actions
    ≡ pg_promote
      ∷ update_node_record
      ∷ to_sibling (standby_follow (pos 3))
      ∷ to_sibling (notify_witness (pos 4))
      ∷ to_sibling (register_witness (pos 4))
      ∷ []
unfolding do_standby_promote
promoted = refl

-- "--force" does not help where a WAL sender is missing.
refused : do_standby_promote forced (cluster 1) ≡ exits err_bad_config []
unfolding do_standby_promote
refused = refl

do_standby_promote-returned_iff_example :
    (returned (do_standby_promote forced (cluster 2)) ≡ true) ↔ (
      ((prerequisites forced (cluster 2) && promote_succeeds (cluster 2) && true) ≡ true)
      × Seen (cluster 2) 0)
do_standby_promote-returned_iff_example =
    do_standby_promote-returned_iff (cluster 2) forced refl refl (omega arith)
