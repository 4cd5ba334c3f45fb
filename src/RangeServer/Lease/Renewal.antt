-- ===== src/RangeServer/Lease/Renewal.antt =====
-- What a renewal does to the epochs that a range may commit at.
use atomix.Base.{ℕ, ◌≡◌, ◌+◌, ◌*◌, ◌≤◌, ◌<◌, ◌⊎◌, Bool, true, false, arith, max, u64_mod}
use atomix.RangeServer.Lease.{LeaseState, new_lower_bound, maybe_update, renewed, renew_round}

abbrev pub Holds : LeaseState → ℕ → Type 0
Holds s e = (s.lower_bound ≤ e) × (e ≤ s.upper_bound)

-- A round never takes back an epoch of the lease that lies ahead of the epoch that it read, keeps the
-- upper bound and the highest known epoch from falling, and either leaves the state as it was or ends
-- the lease at most three lease lengths behind the next epoch. No number may pass the end of a u64.
pub renew_round_keeps :
    (s : LeaseState) (epoch n : ℕ) (stored : Bool) (e : ℕ)
    → s.lower_bound ≤ s.upper_bound
    → max epoch s.upper_bound + 1 + n < u64_mod
    → 2 * n < u64_mod
    → let s' = (renew_round s epoch n stored).0 in
      (Holds s e → epoch < e → Holds s' e)
      × ((s.upper_bound ≤ s'.upper_bound)
          × ((s.highest_known_epoch ≤ s'.highest_known_epoch)
              × ((s' ≡ s) ⊎ ((s'.upper_bound ≤ epoch + 1 + 3 * n) × (epoch + 1 ≤ s'.upper_bound)))))
unfolding renew_round renewed maybe_update new_lower_bound
renew_round_keeps s epoch n true e o small small' = ground arith
renew_round_keeps s epoch n false e o small small' = ground arith
