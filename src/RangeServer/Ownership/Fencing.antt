-- ===== src/RangeServer/Ownership/Fencing.antt =====
-- A leader of the past cannot renew its lease.
use atomix.Base.{ℕ, ◌+◌, ◌≡◌, ◌≤◌, ◌<◌, false, arith}
use atomix.RangeServer.Ownership.{
  EpochLease, RangeLease, ok, new_leader_sequence_number, acquire_range_lease, end_take, renew_row,
  end_renew, take_ownership_and_load_range, renew_epoch_lease,
}

-- A statement of any server. `prev` is the number that it has read at some time before.
pub data Step : RangeLease → RangeLease → Type 0 where
  acquires : (row : RangeLease) (prev : ℕ) → Step row (acquire_range_lease row (prev + 1) prev)
  renews :
      (row : RangeLease) (lease : EpochLease) (number : ℕ) → Step row (renew_row row lease number)

pub data Reach (row : RangeLease) : RangeLease → Type 0 where
  here : Reach row row
  next : {r r' : RangeLease} → Reach row r → Step r r' → Reach row r'

Step-le : {r r' : RangeLease} → Step r r' → r.leader_sequence_number ≤ r'.leader_sequence_number
unfolding acquire_range_lease renew_row
Step-le (acquires row prev) = ground arith
Step-le (renews row lease number) = ground arith

Reach-le :
    {row r : RangeLease} → Reach row r → row.leader_sequence_number ≤ r.leader_sequence_number
Reach-le here = omega arith
Reach-le (next r st) = omega (arith, Reach-le r, Step-le st)

renew_epoch_lease-lost :
    (row : RangeLease) (lease : EpochLease) (number : ℕ)
    → number < row.leader_sequence_number
    → renew_epoch_lease row lease number ≡ (row, false)
unfolding renew_epoch_lease renew_row end_renew
renew_epoch_lease-lost row lease number l = ground arith

-- A take-over that no other server interrupts returns the next number with the lease as it was. Whatever
-- statements servers send afterwards, a renewal under the number of an earlier leader returns an error
-- and leaves the row as it is.
pub take_ownership-fences :
    (row later : RangeLease) (lease : EpochLease) (number : ℕ)
    → Reach (take_ownership_and_load_range row).0 later
    → number ≤ row.leader_sequence_number
    → ((take_ownership_and_load_range row).1 ≡ ok (row.leader_sequence_number + 1) row.epoch_lease)
      × (renew_epoch_lease later lease number ≡ (later, false))
unfolding take_ownership_and_load_range acquire_range_lease end_take new_leader_sequence_number
take_ownership-fences row later lease number r l =
    (ground arith, renew_epoch_lease-lost later lease number (ground (arith, Reach-le r, l)))
