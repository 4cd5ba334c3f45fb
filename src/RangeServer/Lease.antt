-- ===== src/RangeServer/Lease.antt =====
-- The epoch lease of a loaded range: `load_inner` and a round of `renew_epoch_lease_task` of
-- rangeserver/src/range_manager/impl.rs. An epoch is a u64. The storage's answer to the renewal is an
-- argument; a round that fails ends the task. Only the task changes the lease while the range is
-- loaded, so a round is one step.
pub mod Renewal
mod Examples
use atomix.Base.{ℕ, ◌+◌, ◌-◌, ◌*◌, ◌%◌, Bool, true, false, ltb, ◌==◌, if◌then◌else◌, max, u64_mod}

pub record LeaseState : Type 0 where
  pub lower_bound : ℕ
  pub upper_bound : ℕ
  pub highest_known_epoch : ℕ

unfoldable pub new_lower_bound : (highest_known_epoch old_upper : ℕ) → ℕ
new_lower_bound highest_known_epoch old_upper = max highest_known_epoch ((old_upper + 1) % u64_mod)

-- The lease with which a range is loaded, after that of the leader before, up to `old_upper`.
unfoldable pub load_lease : (epoch old_upper num_epochs_per_lease : ℕ) → LeaseState
load_lease epoch old_upper num_epochs_per_lease =
    let highest = (epoch + 1) % u64_mod in
    let lower = new_lower_bound highest old_upper in
    record {
      lower_bound = lower;
      upper_bound = (lower + num_epochs_per_lease) % u64_mod;
      highest_known_epoch = highest;
    }

-- The highest known epoch only grows.
unfoldable pub maybe_update : ℕ → ℕ → ℕ
maybe_update v new_epoch = max v new_epoch

-- The new lease: it continues the old one if it starts right behind it.
unfoldable pub renewed : LeaseState → (epoch num_epochs_per_lease : ℕ) → LeaseState
renewed s epoch num_epochs_per_lease =
    let highest = (epoch + 1) % u64_mod in
    let lower = new_lower_bound highest s.upper_bound in
    record {
      lower_bound = if lower - s.upper_bound == 1 then s.lower_bound else lower;
      upper_bound = (lower + num_epochs_per_lease) % u64_mod;
      highest_known_epoch = maybe_update s.highest_known_epoch highest;
    }

-- A round with the epoch that it read. `num_epochs_left` is a saturating subtraction. `false` in the
-- result for an error.
unfoldable pub renew_round :
    LeaseState → (epoch num_epochs_per_lease : ℕ) → (stored : Bool) → LeaseState × Bool
renew_round s epoch num_epochs_per_lease stored =
    if ltb ((2 * num_epochs_per_lease) % u64_mod) (s.upper_bound - epoch)
    then (s, true)
    else if stored
    then (renewed s epoch num_epochs_per_lease, true)
    else (s, false)
