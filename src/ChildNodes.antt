-- ===== src/ChildNodes.antt =====
-- The watch that repmgrd on a primary keeps over its child nodes, repmgrd-physical.c:
-- `check_primary_child_nodes`, `execute_child_nodes_disconnect_command` and the list of child
-- node records.
pub mod Records
pub mod Command
pub mod Shortage
pub mod Watch
pub mod Tracking
pub mod Vanished
pub mod Status
pub mod Startup
