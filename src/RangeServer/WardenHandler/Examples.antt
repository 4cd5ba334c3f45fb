-- ===== src/RangeServer/WardenHandler/Examples.antt =====
-- The handler of updates on concrete assignments, with numbers as ids.
use atomix.Base.{ℕ, ◌≡◌, refl, true, false, List, [], ◌∷◌, ◌||◌, ℕ_discrete, contains, add, discard}
use atomix.RangeServer.WardenHandler.{
  load_range, unload_range, Update, full_assignment, incremental_assignment, collect,
  unload_missing, load_new, load_each, unload_each, process_warden_update, not_started, started,
  start, is_assigned,
}
use atomix.RangeServer.WardenHandler.Updates.{
  sends_load, sends_unload, wants, follows, process_warden_update-wants, assigned_after, has_after,
  start-has_after,
}

abbrev before : List ℕ
before = 1 ∷ 2 ∷ []

full_test :
    process_warden_update ℕ_discrete (full_assignment (3 ∷ 2 ∷ [])) before
    ≡ (2 ∷ 3 ∷ [], unload_range 1 ∷ load_range 3 ∷ [])
unfolding process_warden_update collect unload_missing load_new contains add ℕ_discrete
full_test = refl

-- A range that is loaded and unloaded by one update.
incremental_test :
    process_warden_update ℕ_discrete (incremental_assignment (4 ∷ 1 ∷ []) (4 ∷ [])) before
    ≡ (1 ∷ 2 ∷ [], load_range 4 ∷ unload_range 4 ∷ [])
unfolding process_warden_update load_each unload_each contains add discard ℕ_discrete
incremental_test = refl

process_warden_update-wants_example :
    let (after, sent) = process_warden_update ℕ_discrete (full_assignment (3 ∷ 2 ∷ [])) before in
    (is_assigned ℕ_discrete (started after) 3
      ≡ wants ℕ_discrete (full_assignment (3 ∷ 2 ∷ [])) before 3)
    × (follows ℕ_discrete 3 (is_assigned ℕ_discrete (started before) 3) sent
        ≡ wants ℕ_discrete (full_assignment (3 ∷ 2 ∷ [])) before 3)
    × (sends_load ℕ_discrete 3 sent ≡ true → is_assigned ℕ_discrete (started before) 3 ≡ false)
    × (sends_unload ℕ_discrete 3 sent ≡ true
        → (is_assigned ℕ_discrete (started before) 3 || sends_load ℕ_discrete 3 sent) ≡ true)
process_warden_update-wants_example =
    process_warden_update-wants ℕ_discrete (full_assignment (3 ∷ 2 ∷ [])) before 3

abbrev updates : List (Update ℕ)
updates = full_assignment (3 ∷ 2 ∷ []) ∷ incremental_assignment (4 ∷ []) (2 ∷ []) ∷ []

start-has_after_example :
    (start ℕ_discrete not_started true ≡ (started [], true))
    × (has_after ℕ_discrete 4 updates [] false
        ≡ is_assigned ℕ_discrete (started (assigned_after ℕ_discrete updates [])) 4)
start-has_after_example = start-has_after ℕ_discrete updates 4
