-- ===== src/RangeServer/LockTable/Examples.antt =====
-- The theorems about the lock table at concrete tables.
use atomix.Base.{ℕ, ◌≡◌, refl, ◌≤◌, ◌↔◌, ◌⊎◌, some, [], ◌∷◌, Bool, true, arith}
use atomix.RangeServer.LockTable.{
  State, LockRequest, CurrentLockHolder, sent, queued, wait_die, new, acquire, release,
  is_currently_holding,
}
use atomix.RangeServer.LockTable.Order.{
  IsOrdered, NoneYounger, acquire-IsOrdered, acquire_contended, acquire-sent_iff, new-IsOrdered,
}
use atomix.RangeServer.LockTable.Release.{holder_id, release_fifo}
use atomix.RangeServer.LockTable.Turns.{
  here, next, acquires, Reach-IsOrdered, release_all, release_all_turn,
}

abbrev ok_channels : ℕ → Bool
ok_channels _ = true

abbrev holder : CurrentLockHolder
holder = record { transaction = 3; when_acquired = 10; when_requested = 10 }

abbrev first : LockRequest
first = record { transaction = 5; sender = 1; when_requested = 12 }

abbrev second : LockRequest
second = record { transaction = 8; sender = 2; when_requested = 14 }

abbrev watcher : LockRequest
watcher = record { transaction = 4; sender = 7; when_requested = 13 }

-- Transaction 3 holds the lock, 5 and 8 wait to acquire it, and 4 waits for its release.
abbrev busy : State
busy = record {
  current_holder = some holder;
  waiting_for_release = watcher ∷ [];
  waiting_to_acquire = first ∷ second ∷ [];
}

busy-IsOrdered : IsOrdered busy
busy-IsOrdered = omega arith

-- 6 is older than the last waiter and dies; 9 queues.
acquire-busy : (acquire busy 6 3 15 15 ≡ (busy, wait_die)) × ((acquire busy 9 3 15 15).1 ≡ queued)
unfolding acquire
acquire-busy = (refl, refl)

acquire-IsOrdered_example : IsOrdered (acquire busy 9 3 15 16).0
acquire-IsOrdered_example = acquire-IsOrdered busy 9 3 15 16 busy-IsOrdered

acquire_contended_example :
    (((acquire busy 6 3 15 16).1 ≡ queued) ↔ ((3 ≤ 6) × NoneYounger 6 busy.waiting_to_acquire))
    × (((acquire busy 6 3 15 16).1 ≡ queued) ⊎ (acquire busy 6 3 15 16 ≡ (busy, wait_die)))
    × ((acquire busy 6 3 15 16).0.current_holder ≡ some holder)
acquire_contended_example =
    acquire_contended busy holder 6 3 15 16 refl (omega arith) busy-IsOrdered

acquire-sent_iff_test :
    ((acquire busy 3 4 15 16).1 ≡ sent) ↔ (is_currently_holding (acquire busy 3 4 15 16).0 3 ≡ true)
acquire-sent_iff_test = acquire-sent_iff busy 3 4 15 16

release_fifo_test :
    ((release ok_channels busy 20).completed ≡ true)
    × ((release ok_channels busy 20).notified ≡ 7 ∷ 1 ∷ [])
    × (holder_id (release ok_channels busy 20).state ≡ some 5)
    × ((release ok_channels busy 20).state.waiting_to_acquire ≡ second ∷ [])
    × ((release ok_channels busy 20).state.waiting_for_release ≡ [])
release_fifo_test = release_fifo ok_channels busy 20 (refl, tt) (refl, (refl, tt))

Reach-IsOrdered_example : IsOrdered (acquire (acquire new 3 0 10 10).0 5 1 12 12).0
Reach-IsOrdered_example =
    Reach-IsOrdered (next (next here (acquires new 3 0 10 10)) (acquires _ 5 1 12 12)) new-IsOrdered

release_all_turn_example : holder_id (release_all ok_channels busy (20 ∷ 30 ∷ [])) ≡ some 8
release_all_turn_example =
    release_all_turn ok_channels busy 20 (30 ∷ []) (refl, tt) (refl, (refl, tt))
