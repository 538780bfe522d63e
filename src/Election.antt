-- ===== src/Election.antt =====
-- `do_election` of repmgrd-physical.c: the decision of a standby whose primary is unreachable.
-- `Siblings` and `Decide` hold the code, `Follow` the check of a possible new primary; `Rank`,
-- `Scan`, `Outcome` and `Quorum` hold the proofs.
pub mod Follow
pub mod Siblings
pub mod Decide
pub mod Rank
pub mod Scan
pub mod Best
pub mod Outcome
pub mod Winner
pub mod Agreement
pub mod Quorum
pub mod Cancelled
