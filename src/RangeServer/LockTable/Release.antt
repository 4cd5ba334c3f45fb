-- ===== src/RangeServer/LockTable/Release.antt =====
-- Releasing the lock: who is told, who is next, and that everyone in the queue gets a turn.
use atomix.Base.{ℕ, ◌≡◌, refl, Option, none, some, List, [], ◌∷◌, ◌++◌, map, Bool, true, arith}
use mathlib.Core.List.{append-nil}
use atomix.RangeServer.LockTable.{State, LockRequest, notify_all, hand_over, release}
use atomix.RangeServer.LockTable.Order.{IsOrdered}

abbrev pub senders : List LockRequest → List ℕ
senders = map λ q. q.sender

-- Every receiver of the queue still exists.
abbrev pub AllAlive : (ℕ → Bool) → List LockRequest → Type 0
AllAlive alive [] = Unit {0}
AllAlive alive (q ∷ qs) = (alive q.sender ≡ true) × AllAlive alive qs

notify_all_alive :
    (alive : ℕ → Bool) (qs : List LockRequest)
    → AllAlive alive qs
    → notify_all alive qs ≡ ([], senders qs, true)
unfolding notify_all
notify_all_alive alive [] a = refl
notify_all_alive alive (q ∷ qs) a = ground (arith, notify_all_alive alive qs a.1)

-- With a completed loop the queue is empty, and everyone in it was told.
notify_all_done :
    (alive : ℕ → Bool) (qs : List LockRequest)
    → (notify_all alive qs).2 ≡ true
    → notify_all alive qs ≡ ([], senders qs, true)
unfolding notify_all
notify_all_done alive [] a = refl
notify_all_done alive (q ∷ qs) a = ground (arith, notify_all_done alive qs)

-- A completed release keeps the order of age, whatever receivers were dropped.
pub release-IsOrdered :
    (alive : ℕ → Bool) (s : State) (now : ℕ)
    → IsOrdered s
    → (release alive s now).completed ≡ true
    → IsOrdered (release alive s now).state
unfolding release hand_over
release-IsOrdered alive s now o c = ground (arith, notify_all_done alive s.waiting_for_release)

-- The next holder.
abbrev pub head_id : List LockRequest → Option ℕ
head_id [] = none
head_id (q ∷ qs) = some q.transaction

abbrev pub tail : List LockRequest → List LockRequest
tail [] = []
tail (q ∷ qs) = qs

abbrev pub holder_id : State → Option ℕ
holder_id s = elim s.current_holder [ none ↦ none | some h ↦ some h.transaction ]

abbrev pub first_sender : List LockRequest → List ℕ
first_sender [] = []
first_sender (q ∷ qs) = q.sender ∷ []

-- If every receiver still exists, a release completes: everyone who waited for the release is told,
-- then the longest waiter gets the lock and is told, and the rest of the queue stays as it is.
pub release_fifo :
    (alive : ℕ → Bool) (s : State) (now : ℕ)
    → AllAlive alive s.waiting_for_release
    → AllAlive alive s.waiting_to_acquire
    → ((release alive s now).completed ≡ true)
      × ((release alive s now).notified
          ≡ senders s.waiting_for_release ++ first_sender s.waiting_to_acquire)
      × (holder_id (release alive s now).state ≡ head_id s.waiting_to_acquire)
      × ((release alive s now).state.waiting_to_acquire ≡ tail s.waiting_to_acquire)
      × ((release alive s now).state.waiting_for_release ≡ [])
unfolding release hand_over
release_fifo alive s now ar aa = ground (
  arith,
  notify_all_alive alive s.waiting_for_release ar,
  append-nil (senders s.waiting_for_release),
)
