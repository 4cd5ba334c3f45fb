-- ===== src/Epoch/Publisher.antt =====
-- One publisher of epoch_publisher/src/server.rs: `set_epoch` and the answer of `read_epoch`. The RPC
-- loads the epoch and exchanges it in two atomic steps, and RPCs run in parallel: `begin_set` is the
-- first step and `finish_set` the second.
pub mod Races
use atomix.Base.{ℕ, Bool, true, false, Option, none, some, ltb, ◌==◌, if◌then◌else◌}
use atomix.Epoch.Storage.{compare_exchange}

-- What the first step of `set_epoch` does: it fails with `FailedPrecondition`, or goes on with the
-- epoch that it loaded and the new one.
pub data Begun : Type 0 where
  failed_precondition : Begun
  loaded : (current_epoch new_epoch : ℕ) → Begun

unfoldable pub begin_set : (epoch new_epoch : ℕ) → Begun
begin_set epoch new_epoch = if epoch == 0 then failed_precondition else loaded epoch new_epoch

-- The second step: the epoch that it leaves, and whether the call answers `Ok`. It exchanges only for
-- a greater epoch, and does not look at what the exchange returns.
unfoldable pub finish_set : (epoch current_epoch new_epoch : ℕ) → ℕ × Bool
finish_set epoch current_epoch new_epoch =
    if ltb current_epoch new_epoch
    then ((compare_exchange epoch current_epoch new_epoch).0, true)
    else (epoch, true)

-- The call with no other between its steps: the epoch that it leaves, and whether it answers `Ok`.
unfoldable pub set_epoch : (epoch new_epoch : ℕ) → ℕ × Bool
set_epoch epoch new_epoch = elim (begin_set epoch new_epoch) [
  | failed_precondition ↦ (epoch, false)
  | loaded current new ↦ finish_set epoch current new
]

-- `none` is the status `EpochUnknown`.
unfoldable pub read_epoch : ℕ → Option ℕ
read_epoch epoch = if epoch == 0 then none else some epoch
