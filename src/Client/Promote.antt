-- ===== src/Client/Promote.antt =====
-- "repmgr standby promote": `do_standby_promote` and what it calls in repmgr-action-standby.c.
pub mod Siblings
pub mod Run
pub mod Needs
pub mod Checks
pub mod Start
pub mod Wait
pub mod Outcome
