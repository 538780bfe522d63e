-- ===== src/Monitor.antt =====
-- The monitoring of repmgrd: `monitor_streaming_standby` and `monitor_streaming_primary` of
-- repmgrd-physical.c and `check_upstream_connection` of repmgrd.c. One round of a loop is a
-- function of the variables of repmgrd and of the answers in that round.
pub mod Upstream
pub mod State
pub mod Lost
pub mod Degraded
pub mod Local
pub mod Round
pub mod Primary
pub mod Guarded
pub mod Tail
pub mod Wakes
pub mod Watchful
pub mod Paused
pub mod Witness
pub mod Attentive
pub mod Resumed
pub mod WitnessRun
