-- ===== src/Epoch/Majority.antt =====
-- Counting answers: `update_epoch` of epoch/src/publisher_set_updater.rs and `read_epoch` of
-- epoch_reader/src/reader.rs.
pub mod Counts
use atomix.Base.{
  ℕ, suc, ◌+◌, ◌/◌, Bool, true, false, Option, none, some, List, [], ◌∷◌, leb, if◌then◌else◌,
  ℕ_discrete, lookup, insert,
}

abbrev pub length {ℓ} : {A : Type ℓ} → List A → ℕ
length [] = 0
length (x ∷ xs) = suc (length xs)

-- `floor(n / 2.0) as u64 + 1`; the float is exact for the sizes of a publisher set.
unfoldable pub publisher_majority_count : ℕ → ℕ
publisher_majority_count n = n / 2 + 1

-- The loop over the answers, with the successes so far: it ends early with enough of them.
unfoldable pub await_successes : (majority num_success : ℕ) → List Bool → Bool
await_successes majority num_success [] = false
await_successes majority num_success (false ∷ rs) = await_successes majority num_success rs
await_successes majority num_success (true ∷ rs) =
    let rest = await_successes majority (num_success + 1) rs in
    if leb majority (num_success + 1) then true else rest

unfoldable pub update_epoch : List Bool → Bool
update_epoch answers = await_successes (publisher_majority_count (length answers)) 0 answers

abbrev pub or_zero : Option ℕ → ℕ
or_zero none = 0
or_zero (some n) = n

-- The loop over the epochs that the publishers sent, with the counts so far; `none` is an error.
unfoldable pub count_epochs : (majority : ℕ) → List (ℕ × ℕ) → List (Option ℕ) → Option ℕ
count_epochs majority counts [] = none
count_epochs majority counts (none ∷ rs) = count_epochs majority counts rs
count_epochs majority counts (some epoch ∷ rs) =
    let current_count = or_zero (lookup ℕ_discrete epoch counts) in
    let rest = count_epochs majority (insert ℕ_discrete epoch (current_count + 1) counts) rs in
    if leb majority (current_count + 1) then some epoch else rest

-- `none` is `Error::EpochUnknown`.
unfoldable pub read_epoch : List (Option ℕ) → Option ℕ
read_epoch answers = count_epochs (publisher_majority_count (length answers)) [] answers
