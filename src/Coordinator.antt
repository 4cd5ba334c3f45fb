-- ===== src/Coordinator.antt =====
-- The coordinator's side of a transaction (coordinator/src/transaction.rs) and the store of
-- transaction states that it decides with (tx_state_store/src).
pub mod Store
pub mod Transaction
pub mod Access
pub mod Commit
mod Examples
