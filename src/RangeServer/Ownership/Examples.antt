-- ===== src/RangeServer/Ownership/Examples.antt =====
-- The ownership of a range on a concrete row.
use atomix.Base.{◌≡◌, true, false, arith}
use atomix.RangeServer.Ownership.{
  EpochLease, RangeLease, ok, new_leader_sequence_number, acquire_range_lease, end_take,
  take_ownership_and_load_range, renew_row, renew_epoch_lease,
}
use atomix.RangeServer.Ownership.Fencing.{here, next, renews, take_ownership-fences}
use atomix.RangeServer.Ownership.Races.{take_race}

abbrev row : RangeLease
row = record {
  leader_sequence_number = 3;
  epoch_lease = record { lower_bound_inclusive = 5; upper_bound_inclusive = 9 };
}

abbrev lease : EpochLease
lease = record { lower_bound_inclusive = 5; upper_bound_inclusive = 14 }

-- The new leader, with number 4, renews; the old one, with number 3, comes too late.
abbrev renewed : RangeLease
renewed = renew_row (take_ownership_and_load_range row).0 lease 4

take_ownership-fences_example :
    ((take_ownership_and_load_range row).1 ≡ ok 4 row.epoch_lease)
    × (renew_epoch_lease renewed lease 3 ≡ (renewed, false))
take_ownership-fences_example =
    take_ownership-fences row renewed lease 3
      (next here (renews (take_ownership_and_load_range row).0 lease 4)) (omega arith)

take_race_example :
    let n = new_leader_sequence_number row in
    let first = acquire_range_lease row n 3 in
    let second = acquire_range_lease first n 3 in
    (second ≡ first)
    × (end_take first n ≡ ok n row.epoch_lease)
    × (end_take second n ≡ ok n row.epoch_lease)
    × (renew_epoch_lease second lease n ≡ (record second { epoch_lease = lease }, true))
take_race_example = take_race row lease
