-- ===== src/Client/Switchover.antt =====
-- "repmgr standby switchover": `do_standby_switchover` in repmgr-action-standby.c.
pub mod World
pub mod Checks
pub mod Repmgrd
pub mod Shutdown
pub mod Finish
pub mod Run
pub mod Cases
pub mod Order
pub mod Phases
pub mod Stopped
pub mod Reached
pub mod Recorded
pub mod Pauses
pub mod Restored
pub mod Capacity
pub mod Ready
pub mod Rehearsal
pub mod Completed
pub mod ControlFile
pub mod CleanStop
