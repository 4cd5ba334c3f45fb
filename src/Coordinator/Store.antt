-- ===== src/Coordinator/Store.antt =====
-- The state of a transaction in the store: tx_state_store/src/storage/cassandra.rs. A row of the table
-- `transactions` is its status and its epoch; each statement of the source is a lightweight
-- transaction, so it is one step on the row. Statements that fail change nothing here.
pub mod Outcomes
use atomix.Base.{ℕ, Option, none, some}

pub data Status : Type 0 where
  started : Status
  committed : (epoch : ℕ) → Status
  aborted : Status

pub data OpResult : Type 0 where
  transaction_is_aborted : OpResult
  transaction_is_committed : (epoch : ℕ) → OpResult

-- `IF NOT EXISTS`.
unfoldable pub start_transaction : Option Status → Option Status
start_transaction none = some started
start_transaction (some s) = some s

-- `IF status IN ('started', 'committed')`, with the answer of the call.
unfoldable pub commit_transaction : Option Status → (epoch : ℕ) → Option Status × OpResult
commit_transaction none epoch = (none, transaction_is_aborted)
commit_transaction (some started) epoch = (some (committed epoch), transaction_is_committed epoch)
commit_transaction (some (committed e)) epoch =
    (some (committed epoch), transaction_is_committed epoch)
commit_transaction (some aborted) epoch = (some aborted, transaction_is_aborted)

-- The query for the epoch of a committed row.
unfoldable pub maybe_get_commit_epoch : Option Status → OpResult
maybe_get_commit_epoch (some (committed epoch)) = transaction_is_committed epoch
maybe_get_commit_epoch _ = transaction_is_aborted

-- `IF status IN ('started', 'aborted')`; if it was not applied, the row is read.
unfoldable pub abort_transaction : Option Status → Option Status × OpResult
abort_transaction (some started) = (some aborted, transaction_is_aborted)
abort_transaction (some aborted) = (some aborted, transaction_is_aborted)
abort_transaction row = (row, maybe_get_commit_epoch row)
