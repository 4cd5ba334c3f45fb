-- ===== src/Epoch.antt =====
-- The epoch services: the epoch server with its storage (epoch/src), the publishers
-- (epoch_publisher/src/server.rs) and the readers (epoch_reader/src/reader.rs). The answers of a join
-- set are a list in the order in which they arrive, one for each publisher; a request that failed and
-- a task that panicked are the same answer.
pub mod Majority
pub mod Storage
pub mod Publisher
pub mod Quorum
mod Examples
