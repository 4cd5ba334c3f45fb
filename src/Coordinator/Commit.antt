-- ===== src/Coordinator/Commit.antt =====
-- `commit` of coordinator/src/transaction.rs. The answers of the ranges to the prepare requests arrive
-- in the order of the list.
pub mod Decision
use atomix.Base.{
  ℕ, Bool, true, false, ◌&&◌, Option, none, some, List, [], ◌∷◌, ◌++◌, Bytes, ltb, leb, ◌==◌,
  if◌then◌else◌,
}
use atomix.Routing.{FullRangeId}
use atomix.Coordinator.Store.{
  Status, OpResult, transaction_is_aborted, transaction_is_committed, commit_transaction,
}
use atomix.Coordinator.Transaction.{
  State, preparing, committed, ParticipantRange, Transaction, Error, transaction_aborted,
  range_lease_expired, prepare_failed, other, Result, ok, err, panics, check_still_running, Request,
  prepare_request, commit_request, Run, to_participants, record_abort, returns,
}

pub record EpochLease : Type 0 where
  pub lower_bound_inclusive : ℕ
  pub upper_bound_inclusive : ℕ

-- The answer of a range: the task died, the range refused, or `PrepareOk`.
pub data Prepared : Type 0 where
  join_failed refused : Prepared
  prepared : (highest_known_epoch : ℕ) → (epoch_lease : EpochLease) → Prepared

-- What the loop over the answers finds; it stops at the first that is no `PrepareOk`.
pub data Gathered : Type 0 where
  failed panicked : Gathered
  gathered : (epoch : ℕ) → (epoch_leases : List EpochLease) → Gathered

unfoldable pub gather : ℕ → List EpochLease → List Prepared → Gathered
gather epoch leases [] = gathered epoch leases
gather epoch leases (join_failed ∷ rs) = failed
gather epoch leases (refused ∷ rs) = panicked
gather epoch leases (prepared highest lease ∷ rs) =
    gather (if ltb epoch highest then highest else epoch) (leases ++ lease ∷ []) rs

-- Every lease has the epoch.
unfoldable pub all_hold : ℕ → List EpochLease → Bool
all_hold epoch [] = true
all_hold epoch (lease ∷ ls) =
    (leb lease.lower_bound_inclusive epoch && leb epoch lease.upper_bound_inclusive)
    && all_hold epoch ls

abbrev pub has_some {ℓ} : {A : Type ℓ} → List A → Bool
has_some [] = false
has_some (x ∷ xs) = true

unfoldable pub prepares : List (FullRangeId × ParticipantRange) → List (FullRangeId × Request)
prepares [] = []
prepares ((id, p) ∷ ps) =
    (id, prepare_request (has_some p.readset) p.writeset p.deleteset) ∷ prepares ps

-- The store's answer to the commit.
unfoldable pub finish_commit : Transaction → ℕ → Option Status × OpResult → Run (Unit {0})
finish_commit t epoch (row, transaction_is_aborted) =
    returns t row (err (transaction_aborted other))
finish_commit t epoch (row, transaction_is_committed e) =
    if e == epoch
    then record {
      transaction = record t { state = committed };
      row = row;
      sent = to_participants (commit_request epoch) t.participant_ranges;
      result = ok tt;
    }
    else returns t row panics

unfoldable pub decide : Transaction → Option Status → Gathered → Run (Unit {0})
decide t row panicked = returns t row panics
decide t row failed = record_abort t row (err (transaction_aborted prepare_failed))
decide t row (gathered epoch leases) =
    if all_hold epoch leases
    then finish_commit t epoch (commit_transaction row epoch)
    else record_abort t row (err (transaction_aborted range_lease_expired))

-- The requests that go out before those of the run.
unfoldable pub after_requests : {A : Type 0} → List (FullRangeId × Request) → Run A → Run A
after_requests requests run = record run { sent = requests ++ run.sent }

-- `epoch` is what the reader returns; an error makes `unwrap` panic. `row` is the row of the store
-- when the coordinator comes to it.
unfoldable pub commit_at : Transaction → Option Status → Option ℕ → List Prepared → Run (Unit {0})
commit_at t row none rs = returns t row panics
commit_at t row (some epoch) rs = decide t row (gather epoch [] rs)

unfoldable pub commit : Transaction → Option Status → Option ℕ → List Prepared → Run (Unit {0})
commit t row epoch rs = elim (check_still_running t.state) [
  | some e ↦ returns t row (err e)
  | none ↦
      after_requests (prepares t.participant_ranges)
        (commit_at (record t { state = preparing }) row epoch rs)
]
