-- ===== src/Client/Follow.antt =====
-- "repmgr standby follow": `do_standby_follow` and `do_standby_follow_internal` of
-- repmgr-action-standby.c.
pub mod Internal
pub mod Run
pub mod Status
