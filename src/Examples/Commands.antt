-- ===== src/Examples/Commands.antt =====
-- Command templates at concrete inputs.
use repmgr.Base.{ℕ, ◌<◌, ◌≡◌, refl, List, pos, length, codes}
use repmgr.Templates.{
  max_pg_path, parse_failover_validation_command, parse_follow_command,
  parse_child_nodes_disconnect_command,
}
use repmgr.Templates.Bounds.{parsed_command_fits}

abbrev follow_template : List ℕ
follow_template = codes "follow %n 100%% %x"

follow_runs : parse_follow_command follow_template (pos 12) ≡ codes "follow 12 100% %x"
unfolding parse_follow_command
follow_runs = refl

disconnect_runs :
    parse_child_nodes_disconnect_command (codes "lost %p 100%% %x") (pos 12)
    ≡ codes "lost 12 100% x"
unfolding parse_child_nodes_disconnect_command
disconnect_runs = refl

validation_runs :
    parse_failover_validation_command
      (pos 7)
      (codes "n7")
      (record { visible_nodes = 3; shared_upstream_nodes = 4; all_nodes = 12 })
      (codes "%n %a %v/%u/%t %%%z")
    ≡ codes "7 n7 3/4/12 %%z"
unfolding parse_failover_validation_command
validation_runs = refl

parsed_command_fits_example :
    (length (parse_follow_command follow_template (pos 12)) < max_pg_path)
    × (length (parse_child_nodes_disconnect_command follow_template (pos 12)) < max_pg_path)
parsed_command_fits_example = parsed_command_fits follow_template (pos 12)
