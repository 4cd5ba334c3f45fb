-- ===== src/RangeServer/Ownership.antt =====
-- The ownership of a range in rangeserver/src/storage/cassandra.rs: the row of its lease, with the
-- number of its leader. A conditional statement is carried out at once. Each of the three queries of a
-- take-over is a step of its own, so that other servers may come between; a query that fails ends the
-- call with an error. The row of the range exists. The number of the
-- leader starts at 0 and grows by one with each leader: it is taken to stay below 2 ^ 63, where its
-- casts between i64 and u64 change nothing.
pub mod Fencing
pub mod Races
mod Examples
use atomix.Base.{ℕ, ◌+◌, Bool, true, false, ◌==◌, if◌then◌else◌}

pub record EpochLease : Type 0 where
  pub lower_bound_inclusive : ℕ
  pub upper_bound_inclusive : ℕ

-- Of the row of a range what changes.
pub record RangeLease : Type 0 where
  pub leader_sequence_number : ℕ
  pub epoch_lease : EpochLease

-- What a take-over returns: the number of the leader and the lease, or an error.
pub data Taken : Type 0 where
  ok : (leader_sequence_number : ℕ) → EpochLease → Taken
  range_ownership_lost : Taken

-- `GET_RANGE_LEASE_QUERY`, and the number that the server will ask for.
unfoldable pub new_leader_sequence_number : RangeLease → ℕ
new_leader_sequence_number row = row.leader_sequence_number + 1

-- `ACQUIRE_RANGE_LEASE_QUERY`.
unfoldable pub acquire_range_lease : RangeLease → (new_number prev_number : ℕ) → RangeLease
acquire_range_lease row new_number prev_number =
    if row.leader_sequence_number == prev_number
    then record row { leader_sequence_number = new_number }
    else row

-- The end of `take_ownership_and_load_range`, with the row that it reads again.
unfoldable pub end_take : RangeLease → (new_number : ℕ) → Taken
end_take row new_number =
    if row.leader_sequence_number == new_number
    then ok new_number row.epoch_lease
    else range_ownership_lost

-- `RENEW_EPOCH_LEASE_QUERY`.
unfoldable pub renew_row : RangeLease → EpochLease → (leader_sequence_number : ℕ) → RangeLease
renew_row row lease number =
    if row.leader_sequence_number == number then record row { epoch_lease = lease } else row

-- The end of `renew_epoch_lease`: whether it returns `Ok`, with the row that it reads again.
unfoldable pub end_renew : RangeLease → (leader_sequence_number : ℕ) → Bool
end_renew row number = row.leader_sequence_number == number

-- The two calls with no other server in between.
unfoldable pub take_ownership_and_load_range : RangeLease → RangeLease × Taken
take_ownership_and_load_range row =
    let new_number = new_leader_sequence_number row in
    let row' = acquire_range_lease row new_number row.leader_sequence_number in
    (row', end_take row' new_number)

unfoldable pub renew_epoch_lease : RangeLease → EpochLease → ℕ → RangeLease × Bool
renew_epoch_lease row lease number =
    let row' = renew_row row lease number in (row', end_renew row' number)
