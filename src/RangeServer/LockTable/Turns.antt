-- ===== src/RangeServer/LockTable/Turns.antt =====
-- Histories of the lock table: the invariant over any history, and that each waiter gets its turn.
use atomix.Base.{
  ℕ, zero, suc, ◌≡◌, refl, Option, none, some, List, [], ◌∷◌, Bool, true, arith, ◌∙◌, sym,
}
use atomix.RangeServer.LockTable.{
  State, LockRequest, release, maybe_wait_for_current_holder, acquire,
}
use atomix.RangeServer.LockTable.Order.{IsOrdered, acquire-IsOrdered, maybe_wait-IsOrdered}
use atomix.RangeServer.LockTable.Release.{
  AllAlive, holder_id, tail, release-IsOrdered, release_fifo,
}

-- One critical section of the table: any caller, any clock, any channels.
pub data Step : State → State → Type 0 where
  acquires :
      (s : State) (tx sender requested now : ℕ) → Step s (acquire s tx sender requested now).0
  waits : (s : State) (tx sender now : ℕ) → Step s (maybe_wait_for_current_holder s tx sender now).0
  releases :
      (alive : ℕ → Bool) (s : State) (now : ℕ)
      → (release alive s now).completed ≡ true
      → Step s (release alive s now).state

pub data Reach : State → State → Type 0 where
  here : {s : State} → Reach s s
  next : {s t u : State} → Reach s t → Step t u → Reach s u

Step-IsOrdered : {s t : State} → Step s t → IsOrdered s → IsOrdered t
Step-IsOrdered (acquires s tx sender requested now) o =
    acquire-IsOrdered s tx sender requested now o
Step-IsOrdered (waits s tx sender now) o = maybe_wait-IsOrdered s tx sender now o
Step-IsOrdered (releases alive s now c) o = release-IsOrdered alive s now o c

-- In every state that critical sections reach from an ordered one, releases that panic left aside,
-- nobody waits at a free lock, no transaction that waits to acquire the lock is older than its holder,
-- and their queue is in the order of age. Of those who wait for a release while the lock is held nothing
-- is said.
pub Reach-IsOrdered : {s t : State} → Reach s t → IsOrdered s → IsOrdered t
Reach-IsOrdered here o = o
Reach-IsOrdered (next r st) o = Step-IsOrdered st (Reach-IsOrdered r o)

-- Releases at the given times, with nothing in between.
unfoldable pub release_all : (ℕ → Bool) → State → List ℕ → State
release_all alive s [] = s
release_all alive s (now ∷ nows) = release_all alive (release alive s now).state nows

abbrev pub nth_id : List LockRequest → ℕ → Option ℕ
nth_id [] i = none
nth_id (q ∷ qs) zero = some q.transaction
nth_id (q ∷ qs) (suc i) = nth_id qs i

tail-AllAlive :
    (alive : ℕ → Bool) (qs : List LockRequest) → AllAlive alive qs → AllAlive alive (tail qs)
tail-AllAlive alive [] a = tt
tail-AllAlive alive (q ∷ qs) a = a.1

nth_id-tail : (qs : List LockRequest) (i : ℕ) → nth_id qs (suc i) ≡ nth_id (tail qs) i
nth_id-tail [] i = refl
nth_id-tail (q ∷ qs) i = refl

abbrev pub length {ℓ} : {A : Type ℓ} → List A → ℕ
length [] = 0
length (x ∷ xs) = suc (length xs)

-- While every receiver still exists, the waiter at place `i` of the queue holds the lock after
-- `i + 1` releases; past the end of the queue the lock is free.
pub release_all_turn :
    (alive : ℕ → Bool) (s : State) (now : ℕ) (nows : List ℕ)
    → AllAlive alive s.waiting_for_release
    → AllAlive alive s.waiting_to_acquire
    → holder_id (release_all alive s (now ∷ nows)) ≡ nth_id s.waiting_to_acquire (length nows)
unfolding release_all
release_all_turn alive s now [] ar aa = ground (arith, release_fifo alive s now ar aa)
release_all_turn alive s now (n ∷ nows) ar aa =
    let (done, told, holder, queue, cleared) = release_fifo alive s now ar aa in
    release_all_turn alive (release alive s now).state n nows (rw cleared tt)
      (rw queue (tail-AllAlive alive s.waiting_to_acquire aa))
    ∙ rw queue (sym (nth_id-tail s.waiting_to_acquire (length nows)))
