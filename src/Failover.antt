-- ===== src/Failover.antt =====
-- `do_primary_failover` of repmgrd-physical.c and what it calls. `World` has the types,
-- `Receivers` the wait for the siblings' WAL receivers, `Steps` the functions that promote, follow
-- and notify, `Primary` the failover, `Witness` and `Cascade` the failovers of a witness and of a
-- standby below another standby; the other modules hold the proofs.
pub mod World
pub mod Receivers
pub mod Steps
pub mod Primary
pub mod Promotion
pub mod Actions
pub mod Result
pub mod Order
pub mod Safety
pub mod Witness
pub mod Cascade
