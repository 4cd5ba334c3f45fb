-- ===== src/Epoch/Storage.antt =====
-- The stored epoch: epoch/src/storage/in_memory.rs, and a round of the update loop of
-- epoch/src/server.rs over it. An epoch is a u64, and 0 means that it has not been initialized. Other
-- servers may write to the storage while a round waits for the publishers, so a round has a read and
-- a write at two states of the storage.
pub mod Rounds
use atomix.Base.{
  ℕ, ◌+◌, ◌%◌, Bool, true, false, Option, none, some, List, [], ◌∷◌, ltb, ◌==◌, if◌then◌else◌,
  u64_mod,
}
use atomix.Epoch.Majority.{update_epoch}

-- The new value of an atomic number, and whether it was exchanged.
unfoldable pub compare_exchange : (cell current new : ℕ) → ℕ × Bool
compare_exchange cell current new = if cell == current then (new, true) else (cell, false)

-- It is no error if the epoch has been initialized.
unfoldable pub initialize_epoch : ℕ → ℕ
initialize_epoch epoch = (compare_exchange epoch 0 1).0

-- `none` is `Error::EpochNotInitialized`.
unfoldable pub read_latest : ℕ → Option ℕ
read_latest epoch = if epoch == 0 then none else some epoch

-- `false` is `Error::ConditionFailed`.
unfoldable pub conditional_update : ℕ → (new_epoch current_epoch : ℕ) → ℕ × Bool
conditional_update epoch new_epoch current_epoch =
    if ltb new_epoch current_epoch
    then (epoch, false)
    else compare_exchange epoch current_epoch new_epoch

-- The loop over the publisher sets, each with the answers of its publishers: it abandons the round at
-- the first that fails.
unfoldable pub all_updated : List (List Bool) → Bool
all_updated [] = true
all_updated (answers ∷ sets) = if update_epoch answers then all_updated sets else false

-- A round that finds `before` in the storage, and writes to it when it holds `now`: what it holds then.
unfoldable pub update_round : (before : ℕ) → List (List Bool) → (now : ℕ) → ℕ
update_round before sets now = elim (read_latest before) [
  | none ↦ now
  | some epoch ↦
      if all_updated sets then (conditional_update now ((epoch + 1) % u64_mod) epoch).0 else now
]
