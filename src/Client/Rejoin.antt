-- ===== src/Client/Rejoin.antt =====
-- "repmgr node rejoin": `do_node_rejoin` of repmgr-action-node.c.
pub mod Run
pub mod Status
