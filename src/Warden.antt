-- ===== src/Warden.antt =====
-- warden/src/assignment_computation.rs: which range server serves which range.
-- A child module for each part: the servers that are ready, the base ranges of the universe service,
-- and the computation of assignments.
pub mod Servers
pub mod BaseRanges
pub mod Loads
pub mod Assign
mod Examples
