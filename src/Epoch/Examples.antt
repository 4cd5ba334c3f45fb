-- ===== src/Epoch/Examples.antt =====
-- The theorems about the epoch services at small publisher sets.
use atomix.Base.{
  ℕ, List, Option, ◌≡◌, ◌≢◌, ◌⊎◌, ◌≤◌, ◌<◌, ◌↔◌, ◌*◌, refl, true, false, none, some, [], ◌∷◌,
  ℕ_discrete, lookup, insert, arith,
}
use mathlib.Core.List.Permᴰ
use atomix.Epoch.Majority
use atomix.Epoch.Majority.{
  length, publisher_majority_count, await_successes, update_epoch, count_epochs,
}
use atomix.Epoch.Majority.Counts.{votes, update_epoch_majority, read_epoch_majority}
use atomix.Epoch.Storage.{
  compare_exchange, initialize_epoch, read_latest, conditional_update, all_updated, update_round,
}
use atomix.Epoch.Storage.Rounds.{
  HaveMajorities, update_round_advances, here, starts, rounds, History-monotone,
}
use atomix.Epoch.Publisher
use atomix.Epoch.Publisher.{loaded, begin_set, finish_set, set_epoch}
use atomix.Epoch.Publisher.Races.{set_epoch_lem, set_epoch_lost}
use atomix.Epoch.Quorum.{lost, answered, deliver, set_epochs, read_epochs}
use atomix.Epoch.Quorum.Intersection.{read_after_update}

program : Unit {0}
unfolding publisher_majority_count await_successes update_epoch count_epochs Majority.read_epoch
    compare_exchange initialize_epoch read_latest conditional_update all_updated update_round
    begin_set finish_set set_epoch Publisher.read_epoch deliver set_epochs read_epochs lookup insert
    ℕ_discrete
program = tt

abbrev three : ℕ
three = 3

abbrev seven : ℕ
seven = 7

abbrev answers : List (Option ℕ)
answers = some 4 ∷ none ∷ some 4 ∷ []

update_epoch_majority_test : update_epoch (true ∷ false ∷ true ∷ []) ≡ true
update_epoch_majority_test = (update_epoch_majority (true ∷ false ∷ true ∷ [])).1 (omega arith)

read_epoch_majority_test :
    (Majority.read_epoch answers ≡ some 4) ↔ (length answers < 2 * votes 4 answers)
read_epoch_majority_test = read_epoch_majority answers 4

update_round_advances_example :
    (update_round 7 ((true ∷ []) ∷ []) 7 ≡ 7)
    ⊎ ((seven ≡ 7)
        × ((seven ≢ 0)
            × ((update_round 7 ((true ∷ []) ∷ []) 7 ≡ 8) × HaveMajorities ((true ∷ []) ∷ []))))
update_round_advances_example =
    update_round_advances 7 ((true ∷ []) ∷ []) 7 (omega arith) (omega arith)

-- Two servers run a round from the epoch 1: it moves once.
two_rounds : update_round 1 ((true ∷ []) ∷ []) (update_round 1 ((true ∷ []) ∷ []) 1) ≡ 2
unfolding program
two_rounds = refl

History-monotone_example :
    (0 ≤ update_round 1 ((true ∷ []) ∷ []) (initialize_epoch 0))
    × (update_round 1 ((true ∷ []) ∷ []) (initialize_epoch 0) < 0x1_0000_0000_0000_0000)
History-monotone_example =
    History-monotone (rounds (starts here) 1 ((true ∷ []) ∷ []) (omega arith)) (omega arith)

set_epoch_lem_test :
    ((three ≡ 0) × (set_epoch 3 5 ≡ (3, false)))
    ⊎ ((three ≢ 0) × ((set_epoch 3 5).1 ≡ true) × ((set_epoch 3 5).0 ≡ 5))
set_epoch_lem_test = set_epoch_lem 3 5

set_epoch_lost_example :
    (begin_set 3 4 ≡ loaded 3 4)
    × (begin_set 3 5 ≡ loaded 3 5)
    × (finish_set 3 3 4 ≡ (4, true))
    × (finish_set (finish_set 3 3 4).0 3 5 ≡ (4, true))
set_epoch_lost_example = set_epoch_lost 3 4 5 (omega arith) (omega arith) (omega arith)

-- Of three publishers, one did not get the epoch 6, and the reader does not hear another.
read_after_update_example : 6 ≤ 6
unfolding program
read_after_update_example =
    read_after_update 6 ((5, answered) ∷ (5, lost) ∷ (5, answered) ∷ []) (true ∷ false ∷ true ∷ [])
      ((6, true) ∷ (6, true) ∷ (6, false) ∷ []) (some 6 ∷ some 6 ∷ none ∷ []) 6 (Permᴰ.refl _) refl
      (omega arith, (omega arith, (omega arith, tt))) (Permᴰ.refl _) refl
