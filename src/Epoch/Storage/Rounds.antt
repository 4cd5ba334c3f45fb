-- ===== src/Epoch/Storage/Rounds.antt =====
-- When the stored epoch moves.
use atomix.Base.{ℕ, ◌+◌, ◌*◌, ◌≡◌, ◌≢◌, ◌<◌, ◌≤◌, ◌⊎◌, Bool, true, List, [], ◌∷◌, arith, u64_mod}
use atomix.Epoch.Majority.{length}
use atomix.Epoch.Majority.Counts.{successes, update_epoch_majority}
use atomix.Epoch.Storage.{
  compare_exchange, initialize_epoch, read_latest, conditional_update, all_updated, update_round,
}

-- In each set, more than half of the publishers accepted the epoch.
abbrev pub HaveMajorities : List (List Bool) → Type 0
HaveMajorities [] = Unit {0}
HaveMajorities (answers ∷ sets) = (length answers < 2 * successes answers) × HaveMajorities sets

all_updated-HaveMajorities :
    (sets : List (List Bool)) → all_updated sets ≡ true → HaveMajorities sets
unfolding all_updated
all_updated-HaveMajorities [] h = tt
all_updated-HaveMajorities (answers ∷ sets) h =
    ground (arith, update_epoch_majority answers, all_updated-HaveMajorities sets)

-- A round changes the stored epoch only from the value that it read to the next one, only when that
-- value was initialized, and only after every publisher set accepted the old value with a majority;
-- otherwise, and at the end of the range of a u64, it leaves what the storage holds by then.
pub update_round_advances :
    (before : ℕ) (sets : List (List Bool)) (now : ℕ)
    → now < u64_mod
    → before < u64_mod
    → (update_round before sets now ≡ now)
      ⊎ ((now ≡ before)
          × ((now ≢ 0) × ((update_round before sets now ≡ now + 1) × HaveMajorities sets)))
unfolding update_round read_latest conditional_update compare_exchange
update_round_advances before sets now b b' = ground (arith, all_updated-HaveMajorities sets)

update_round-bounds :
    (before : ℕ) (sets : List (List Bool)) (now : ℕ)
    → now < u64_mod
    → before < u64_mod
    → (now ≤ update_round before sets now) × (update_round before sets now < u64_mod)
unfolding update_round read_latest conditional_update compare_exchange
update_round-bounds before sets now b b' = ground arith

-- Steps of the storage: servers that start, and rounds of any servers, each with the value that it read
-- at some time before.
pub data History : ℕ → ℕ → Type 0 where
  here : {e : ℕ} → History e e
  starts : {e e' : ℕ} → History e e' → History e (initialize_epoch e')
  rounds :
      {e e' : ℕ}
      → History e e'
      → (before : ℕ) (sets : List (List Bool)) → before < u64_mod
      → History e (update_round before sets e')

-- The stored epoch never falls and stays in the range of a u64, however many servers run.
pub History-monotone : {e e' : ℕ} → History e e' → e < u64_mod → (e ≤ e') × (e' < u64_mod)
unfolding initialize_epoch compare_exchange
History-monotone here b = ground arith
History-monotone (starts h) b = ground (arith, History-monotone h b)
History-monotone (rounds {e' = e'} h before sets b') b =
    ground (arith, History-monotone h b, update_round-bounds before sets e')
