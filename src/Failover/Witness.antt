-- ===== src/Failover/Witness.antt =====
-- The failover of a witness node: `do_witness_failover` and `witness_follow_new_primary` of
-- repmgrd-physical.c.
use repmgr.Base.{
  ◌≡◌, refl, ◌⊎◌, inl, inr, ℤ, ◌==ℤ◌, Bool, true, false, not, ◌&&◌, ◌||◌, Option, none, some, List,
  [], ◌∷◌, if◌then◌else◌, arith, Option-cases,
}
use repmgr.Nodes.{NodeInfo, ms_degraded}
use repmgr.Election.Siblings.{Daemon}
use repmgr.Failover.World.{
  FailoverState, failover_none, failover_follow_fail, failover_followed_new_primary,
  failover_following_original_primary, failover_primary_reappeared, failover_no_new_primary,
  Settings, Surroundings, is_primary,
}
use repmgr.Failover.Steps.{wait_primary_notification, notified_on, await_notification}

-- What a witness writes: its new upstream on the new primary, and its copy of the node records.
pub data WitnessAction : Type 0 where
  set_upstream : ℤ → ℤ → WitnessAction
  copy_node_records : WitnessAction

pub record WitnessDone : Type 0 where
  pub state : FailoverState
  pub daemon : Daemon
  pub actions : List WitnessAction

module _ (around : Surroundings) where
  -- Once the new primary is known to be one.
  unfoldable pub witness_attach : Daemon → ℤ → WitnessDone
  witness_attach daemon new_primary_id =
      let wrote =
        set_upstream daemon.local_node_info.node_id new_primary_id ∷ copy_node_records ∷ [] in
      elim (around.record_on_primary new_primary_id) [
        | none ↦ record { state = failover_follow_fail; daemon = daemon; actions = wrote }
        | some upstream ↦ elim (around.record_on_primary daemon.local_node_info.node_id) [
          | none ↦ record {
            state = failover_follow_fail;
            daemon = record daemon { upstream_node_info = upstream };
            actions = wrote;
          }
          | some local ↦ record {
            state = failover_followed_new_primary;
            daemon = record daemon { upstream_node_info = upstream; local_node_info = local };
            actions = wrote;
          }
        ]
      ]

  unfoldable pub witness_follow_new_primary : Daemon → ℤ → WitnessDone
  unfolding witness_attach
  witness_follow_new_primary daemon new_primary_id =
      let give_up : WitnessDone = record {
        state = failover_follow_fail;
        daemon = daemon;
        actions = [];
      } in
      elim (around.node_record new_primary_id) [
        | none ↦ give_up
        | some new_primary ↦ elim (around.new_primary new_primary) [
          | is_primary ↦ witness_attach daemon new_primary_id
          | _ ↦ give_up
        ]
      ]

-- What `do_witness_failover` returns and leaves behind.
pub record WitnessFailover : Type 0 where
  pub returned : Bool
  pub state : FailoverState
  pub daemon : Daemon
  pub actions : List WitnessAction

abbrev conclude_with : Bool → FailoverState → Daemon → List WitnessAction → WitnessFailover
conclude_with returned state daemon actions = record {
  returned = returned;
  state = state;
  daemon = daemon;
  actions = actions;
}

-- The final `switch` on the failover state.
unfoldable pub witness_dispatch : FailoverState → Daemon → List WitnessAction → WitnessFailover
witness_dispatch failover_primary_reappeared d a = conclude_with true failover_none d a
witness_dispatch failover_followed_new_primary d a = conclude_with true failover_none d a
witness_dispatch failover_following_original_primary d a = conclude_with true failover_none d a
witness_dispatch state d a =
    conclude_with false state (record d { monitoring_state = ms_degraded }) a

module _ (settings : Settings) (around : Surroundings) where
  unfoldable pub heed_witness : Option ℤ × Daemon → WitnessDone
  unfolding witness_follow_new_primary
  heed_witness (none, daemon) = record {
    state = failover_no_new_primary;
    daemon = daemon;
    actions = [];
  }
  heed_witness (some id, daemon) =
      if id ==ℤ daemon.upstream_node_info.node_id
      then record { state = failover_following_original_primary; daemon = daemon; actions = [] }
      else witness_follow_new_primary around daemon id

  unfoldable pub do_witness_failover : Daemon → WitnessFailover
  unfolding heed_witness witness_dispatch
  do_witness_failover daemon =
      let d = heed_witness (wait_primary_notification settings around daemon) in
      witness_dispatch d.state d.daemon d.actions

abbrev pub answers_as_primary : Surroundings → Option NodeInfo → Bool
answers_as_primary around none = false
answers_as_primary around (some node) = elim (around.new_primary node) [
  | is_primary ↦ true
  | _ ↦ false
]

abbrev pub is_known : Option NodeInfo → Bool
is_known none = false
is_known (some node) = true

-- The node that a notification names can be followed: its record is known, it answers as a
-- primary, and it has the records of itself and of the local node.
abbrev pub followable : Surroundings → ℤ → ℤ → Bool
followable around local_id id =
    answers_as_primary around (around.node_record id)
    && is_known (around.record_on_primary id)
    && is_known (around.record_on_primary local_id)

abbrev pub is_followed : FailoverState → Bool
is_followed failover_followed_new_primary = true
is_followed _ = false

module _ (around : Surroundings) where
  witness_follow_new_primary-state :
      (daemon : Daemon) (id : ℤ)
      → ((witness_follow_new_primary around daemon id).state ≡ failover_followed_new_primary)
        ⊎ ((witness_follow_new_primary around daemon id).state ≡ failover_follow_fail)
  unfolding witness_follow_new_primary
  witness_follow_new_primary-state daemon id = ground arith

  witness_follow_new_primary-followed :
      (daemon : Daemon) (id : ℤ)
      → is_followed (witness_follow_new_primary around daemon id).state
        ≡ followable around daemon.local_node_info.node_id id
  unfolding witness_follow_new_primary
  witness_follow_new_primary-followed daemon id = ground arith

-- The result of the wait is a notification that the witness can act on.
abbrev pub heeded : Surroundings → ℤ → ℤ → Option ℤ → Bool
heeded around upstream_id local_id none = false
heeded around upstream_id local_id (some id) = (id ==ℤ upstream_id) || followable around local_id id

abbrev is_degraded : Daemon → Bool
is_degraded daemon = elim daemon.monitoring_state [ ms_degraded ↦ true | _ ↦ false ]

module _ (settings : Settings) (around : Surroundings) where
  witness_dispatch-returned :
      (answer : Option ℤ) (daemon : Daemon) (d : WitnessDone)
      → d ≡ heed_witness settings around (answer, daemon)
      → ((witness_dispatch d.state d.daemon d.actions).returned
          ≡ heeded around daemon.upstream_node_info.node_id daemon.local_node_info.node_id answer)
        × ((not (witness_dispatch d.state d.daemon d.actions).returned
              && not (is_degraded (witness_dispatch d.state d.daemon d.actions).daemon))
            ≡ false)
  unfolding heed_witness witness_dispatch
  witness_dispatch-returned none daemon d e = ground arith
  witness_dispatch-returned (some id) daemon d e = ground (
    arith,
    witness_follow_new_primary-state around daemon id,
    witness_follow_new_primary-followed around daemon id,
  )

  -- A witness that waits for a notification resumes monitoring exactly when, within the timeout,
  -- it is told to keep its upstream, or to follow a node that answers as a primary and has the
  -- records of both; otherwise it is left in degraded monitoring.
  pub do_witness_failover-returned :
      (daemon : Daemon)
      → ((do_witness_failover settings around daemon).returned
          ≡ heeded around daemon.upstream_node_info.node_id daemon.local_node_info.node_id
              (wait_primary_notification settings around daemon).0)
        × ((not (do_witness_failover settings around daemon).returned
              && not (is_degraded (do_witness_failover settings around daemon).daemon))
            ≡ false)
  unfolding do_witness_failover wait_primary_notification notified_on
  do_witness_failover-returned daemon =
      elim (Option-cases
        (await_notification around.notification settings.primary_notification_timeout 0)) [
          | inl silent ↦ rw silent (
              witness_dispatch-returned none (record daemon { monitoring_state = ms_degraded }) _
                refl)
          | inr (id, told) ↦ rw told (witness_dispatch-returned (some id) daemon _ refl)
        ]
