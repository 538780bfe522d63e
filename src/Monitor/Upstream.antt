-- ===== src/Monitor/Upstream.antt =====
-- `check_upstream_connection` of repmgrd.c: whether the upstream node can be reached.
use repmgr.Base.{Bool, true, false, not, if◌then◌else◌}

-- The setting "connection_check_type".
pub data CheckType : Type 0 where
  check_ping check_query check_connection : CheckType

-- What the server and the connections answer: to a ping, to a new connection that is thrown away,
-- the state of the connection in use and of one made in its place, and whether the check query
-- goes through on either.
pub record Probe : Type 0 where
  pub server_available : Bool
  pub test_connection_ok : Bool
  pub connection_ok : Bool
  pub reset_ok : Bool
  pub query_ok : Bool
  pub query_after_reset_ok : Bool

-- The result, and whether the connection has been replaced and passed on to its pair.
pub record Checked : Type 0 where
  pub result : Bool
  pub reset : Bool
  pub paired : Bool

-- The check that does not use the connection.
abbrev pub available : CheckType → Probe → Bool
available check_ping probe = probe.server_available
available check_connection probe = probe.test_connection_ok
available check_query probe = true

unfoldable pub check_and_reset : CheckType → Probe → Checked
check_and_reset type probe =
    if not (available type probe)
    then record { result = false; reset = false; paired = false }
    else if probe.connection_ok
    then record { result = true; reset = false; paired = false }
    else if probe.reset_ok
    then record { result = true; reset = true; paired = true }
    else record { result = false; reset = true; paired = false }

-- The second turn of the loop, after the connection has been reset.
unfoldable pub query_again : Probe → Checked
query_again probe =
    if not probe.reset_ok
    then record { result = false; reset = true; paired = true }
    else if probe.query_after_reset_ok
    then record { result = true; reset = true; paired = true }
    else record { result = false; reset = true; paired = true }

unfoldable pub query_loop : Probe → Checked
unfolding query_again
query_loop probe =
    if not probe.connection_ok
    then query_again probe
    else if probe.query_ok
    then record { result = true; reset = false; paired = false }
    else query_again probe

unfoldable pub check_upstream_connection : CheckType → Probe → Checked
unfolding check_and_reset query_loop
check_upstream_connection check_query probe = query_loop probe
check_upstream_connection check_ping probe = check_and_reset check_ping probe
check_upstream_connection check_connection probe = check_and_reset check_connection probe
