-- ===== src/Examples.antt =====
-- Concrete runs: tests of the definitions, and the theorems at inputs that meet their hypotheses.
mod Elections
mod SharedMemory
mod Failovers
mod Commands
mod Children
mod Texts
mod Reconnections
mod Followers
mod Clients
mod Switchovers
mod Rejoins
mod Monitoring
mod Primaries
mod Witnesses
