-- ===== src/Client/Switchover/Repmgrd.antt =====
-- The instances of repmgrd in a switchover: what is found of them, the pauses and the ends of the
-- pauses.
use repmgr.Base.{ℕ, suc, ℤ, Bool, true, false, not, ◌&&◌, List, [], ◌∷◌, ltb, if◌then◌else◌}
use repmgr.Client.Switchover.World.{
  SwitchoverOptions, SwitchoverWorld, ActiveNode, RepmgrdAnswer, SwitchoverAction, repmgrd_pause,
}

pub record RepmgrdInfo : Type 0 where
  pub node_id : ℤ
  pub pg_running : Bool
  pub running : Bool
  pub paused : Bool

unfoldable pub repmgrd_info : ActiveNode → RepmgrdAnswer → RepmgrdInfo
repmgrd_info node answer =
    if not answer.connects
    then record { node_id = node.node_id; pg_running = false; running = false; paused = false }
    else record {
      node_id = node.node_id;
      pg_running = true;
      running = answer.is_running;
      paused = answer.is_paused;
    }

-- The instances in the order of the nodes, how many run, and how many nodes that are marked as
-- active cannot be reached.
pub record RepmgrdSurvey : Type 0 where
  pub infos : List RepmgrdInfo
  pub repmgrd_running_count : ℕ
  pub unreachable_node_count : ℕ

unfoldable pub survey : (ℤ → RepmgrdAnswer) → List ActiveNode → RepmgrdSurvey
unfolding repmgrd_info
survey repmgrd [] = record { infos = []; repmgrd_running_count = 0; unreachable_node_count = 0 }
survey repmgrd (node ∷ rest) =
    let later : RepmgrdSurvey = survey repmgrd rest in
    let info : RepmgrdInfo = repmgrd_info node (repmgrd node.node_id) in
    record {
      infos = info ∷ later.infos;
      repmgrd_running_count =
          if info.running then suc later.repmgrd_running_count else later.repmgrd_running_count;
      unreachable_node_count =
          if not info.pg_running && node.active
          then suc later.unreachable_node_count
          else later.unreachable_node_count;
    }

-- The loop that pauses; a dry run only says what it would do.
unfoldable pub pause_instances : Bool → List RepmgrdInfo → List SwitchoverAction
pause_instances dry_run [] = []
pause_instances dry_run (info ∷ rest) =
    let later = pause_instances dry_run rest in
    if not info.pg_running
    then later
    else if not info.running
    then later
    else if info.paused
    then later
    else if dry_run
    then later
    else repmgrd_pause info.node_id true ∷ later

-- The loop that ends the pauses, over the connections that can be made again.
unfoldable pub unpause_instances : Bool → (ℤ → Bool) → List RepmgrdInfo → List SwitchoverAction
unpause_instances repmgrd_force_unpause reconnects [] = []
unpause_instances repmgrd_force_unpause reconnects (info ∷ rest) =
    let later = unpause_instances repmgrd_force_unpause reconnects rest in
    if info.paused && not repmgrd_force_unpause
    then later
    else if reconnects info.node_id
    then repmgrd_pause info.node_id false ∷ later
    else later

-- What is known of the instances where they are to be paused, and nothing with
-- "--repmgrd-no-pause".
abbrev pub instances : SwitchoverOptions → SwitchoverWorld → RepmgrdSurvey
instances o w =
    if o.repmgrd_no_pause
    then record { infos = []; repmgrd_running_count = 0; unreachable_node_count = 0 }
    else survey w.repmgrd w.all_nodes

unfoldable pub pause_repmgrds : SwitchoverOptions → SwitchoverWorld → List SwitchoverAction
unfolding survey pause_instances
pause_repmgrds o w =
    let found : RepmgrdSurvey = instances o w in
    if ltb 0 found.repmgrd_running_count then pause_instances o.options.dry_run found.infos else []

unfoldable pub unpause_repmgrds : SwitchoverOptions → SwitchoverWorld → List SwitchoverAction
unfolding survey unpause_instances
unpause_repmgrds o w =
    let found : RepmgrdSurvey = instances o w in
    if ltb 0 found.repmgrd_running_count
    then unpause_instances o.repmgrd_force_unpause w.reconnects found.infos
    else []
