-- ===== src/RangeServer/Lease/Examples.antt =====
-- A renewal of a lease of ten epochs.
use atomix.Base.{◌≡◌, ◌≤◌, ◌<◌, ◌⊎◌, true, arith}
use atomix.RangeServer.Lease.{LeaseState, renew_round}
use atomix.RangeServer.Lease.Renewal.{Holds, renew_round_keeps}

abbrev lease : LeaseState
lease = record { lower_bound = 5; upper_bound = 15; highest_known_epoch = 5 }

renew_round_keeps_example :
    let s' = (renew_round lease 12 10 true).0 in
    (Holds lease 14 → 12 < 14 → Holds s' 14)
    × ((15 ≤ s'.upper_bound)
        × ((5 ≤ s'.highest_known_epoch)
            × ((s' ≡ lease) ⊎ ((s'.upper_bound ≤ 43) × (13 ≤ s'.upper_bound)))))
renew_round_keeps_example =
    renew_round_keeps lease 12 10 true 14 (omega arith) (omega arith) (omega arith)
