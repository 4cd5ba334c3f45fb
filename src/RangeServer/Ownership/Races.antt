-- ===== src/RangeServer/Ownership/Races.antt =====
-- Two servers that take over a range at the same time.
use atomix.Base.{◌≡◌, true, arith}
use atomix.RangeServer.Ownership.{
  EpochLease, RangeLease, ok, new_leader_sequence_number, acquire_range_lease, end_take, renew_row,
  end_renew, renew_epoch_lease,
}

-- Two servers read the row of a range, and then both send their update. The second update has no effect,
-- but both take-overs return `Ok` with the same number, whether a server reads the row again before or
-- after the update of the other, and every renewal under that number is carried out.
pub take_race :
    (row : RangeLease) (lease : EpochLease)
    → let n = new_leader_sequence_number row in
      let first = acquire_range_lease row n row.leader_sequence_number in
      let second = acquire_range_lease first n row.leader_sequence_number in
      (second ≡ first)
      × (end_take first n ≡ ok n row.epoch_lease)
      × (end_take second n ≡ ok n row.epoch_lease)
      × (renew_epoch_lease second lease n ≡ (record second { epoch_lease = lease }, true))
unfolding new_leader_sequence_number acquire_range_lease end_take renew_epoch_lease renew_row
    end_renew
take_race row lease = ground arith
