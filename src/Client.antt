-- ===== src/Client.antt =====
-- Commands of the repmgr client.
pub mod Attach
pub mod Promote
pub mod Join
pub mod Switchover
pub mod Follow
pub mod Rejoin
