-- ===== src/RangeServer/LockTable/Order.antt =====
-- Wait-die: who may wait behind whom.
use atomix.Base.{
  ℕ, ◌≡◌, ◌≢◌, ◌↔◌, refl, ◌≤◌, ◌⊎◌, inl, inr, Option, none, some, List, [], ◌∷◌, true, arith,
  Option-cases,
}
use atomix.RangeServer.LockTable.{
  State, LockRequest, CurrentLockHolder, sent, queued, wait_die, push_back, back_id, new,
  maybe_wait_for_current_holder, acquire_held, acquire, is_currently_holding,
}

-- The ids do not fall along the queue, and none is below `n`.
abbrev pub Ascends : ℕ → List LockRequest → Type 0
Ascends n [] = Unit {0}
Ascends n (q ∷ qs) = (n ≤ q.transaction) × Ascends q.transaction qs

abbrev pub Behind : Option CurrentLockHolder → List LockRequest → List LockRequest → Type 0
Behind none to_acquire for_release = (to_acquire ≡ []) × (for_release ≡ [])
Behind (some h) to_acquire for_release = Ascends h.transaction to_acquire

-- Nobody waits at a free lock, and each waiter is at least as young as the one it waits for.
abbrev pub IsOrdered : State → Type 0
IsOrdered s = Behind s.current_holder s.waiting_to_acquire s.waiting_for_release

pub push_back-Ascends :
    (n : ℕ) (qs : List LockRequest) (r : LockRequest)
    → Ascends n qs
    → back_id qs n ≤ r.transaction
    → Ascends n (push_back qs r)
unfolding push_back back_id
push_back-Ascends n [] r a h = (h, tt)
push_back-Ascends n (q ∷ qs) r a h = (a.0, push_back-Ascends q.transaction qs r a.1 h)

-- The test against the back of the queue is a test against everyone ahead.
pub le-back_id : (n : ℕ) (qs : List LockRequest) → Ascends n qs → n ≤ back_id qs n
unfolding back_id
le-back_id n [] a = omega arith
le-back_id n (q ∷ qs) a = omega (arith, le-back_id q.transaction qs a.1)

pub new-IsOrdered : IsOrdered new
unfolding new
new-IsOrdered = (refl, refl)

acquire_held-IsOrdered :
    (s : State) (h : CurrentLockHolder) (tx sender now : ℕ)
    → Ascends h.transaction s.waiting_to_acquire
    → Ascends h.transaction (acquire_held s h tx sender now).0.waiting_to_acquire
unfolding acquire_held
acquire_held-IsOrdered s h tx sender now a = ground (
  arith,
  push_back-Ascends h.transaction s.waiting_to_acquire
      (record { transaction = tx; sender = sender; when_requested = now }) a,
)

-- `acquire` and `maybe_wait_for_current_holder` keep the queue in the order of age.
pub acquire-IsOrdered :
    (s : State) (tx sender requested now : ℕ)
    → IsOrdered s
    → IsOrdered (acquire s tx sender requested now).0
unfolding acquire acquire_held
acquire-IsOrdered s tx sender requested now o = elim (Option-cases s.current_holder) [
  | inl free ↦ rw (free, acquire) (ground arith)
  | inr (h, held) ↦ ground (arith, held, acquire_held-IsOrdered s h tx sender now)
]

pub maybe_wait-IsOrdered :
    (s : State) (tx sender now : ℕ)
    → IsOrdered s
    → IsOrdered (maybe_wait_for_current_holder s tx sender now).0
unfolding maybe_wait_for_current_holder
maybe_wait-IsOrdered s tx sender now o = ground arith

-- No request of the queue is younger than `tx`.
abbrev pub NoneYounger : ℕ → List LockRequest → Type 0
NoneYounger tx [] = Unit {0}
NoneYounger tx (q ∷ qs) = (q.transaction ≤ tx) × NoneYounger tx qs

NoneYounger-of_back :
    (n tx : ℕ) (qs : List LockRequest) → Ascends n qs → back_id qs n ≤ tx → NoneYounger tx qs
unfolding back_id
NoneYounger-of_back n tx [] a h = tt
NoneYounger-of_back n tx (q ∷ qs) a h =
    (omega (arith, le-back_id q.transaction qs a.1), NoneYounger-of_back q.transaction tx qs a.1 h)

back_of_NoneYounger :
    (n tx : ℕ) (qs : List LockRequest) → n ≤ tx → NoneYounger tx qs → back_id qs n ≤ tx
unfolding back_id
back_of_NoneYounger n tx [] h a = h
back_of_NoneYounger n tx (q ∷ qs) h a = back_of_NoneYounger q.transaction tx qs a.0 a.1

-- What `acquire` answers when another transaction holds the lock of an ordered table: the caller is
-- queued exactly if neither the holder nor any waiter is younger (has a greater id), and otherwise
-- dies with the table unchanged. Either way the holder keeps the lock.
pub acquire_contended :
    (s : State) (h : CurrentLockHolder) (tx sender requested now : ℕ)
    → s.current_holder ≡ some h
    → h.transaction ≢ tx
    → IsOrdered s
    → (((acquire s tx sender requested now).1 ≡ queued)
        ↔ ((h.transaction ≤ tx) × NoneYounger tx s.waiting_to_acquire))
      × (((acquire s tx sender requested now).1 ≡ queued)
          ⊎ (acquire s tx sender requested now ≡ (s, wait_die)))
      × ((acquire s tx sender requested now).0.current_holder ≡ some h)
unfolding acquire acquire_held
acquire_contended s h tx sender requested now held other o =
    let a : Ascends h.transaction s.waiting_to_acquire = ground arith in
    (
      (
        λ e. (
          ground (arith, le-back_id h.transaction s.waiting_to_acquire a),
          NoneYounger-of_back h.transaction tx s.waiting_to_acquire a (ground arith),
        ),
        λ y. ground (arith, back_of_NoneYounger h.transaction tx s.waiting_to_acquire y.0 y.1),
      ),
      ground arith,
      ground arith,
    )

-- `acquire` sends the permit exactly when the caller holds the lock afterwards, and a caller that
-- is queued or dies has not displaced the holder.
pub acquire-sent_iff :
    (s : State) (tx sender requested now : ℕ)
    → ((acquire s tx sender requested now).1 ≡ sent)
      ↔ (is_currently_holding (acquire s tx sender requested now).0 tx ≡ true)
unfolding acquire acquire_held is_currently_holding
acquire-sent_iff s tx sender requested now = (λ e. ground arith, λ e. ground arith)

-- The holder that asks again gets the permit and changes nothing.
pub acquire-holder :
    (t : State) (tx sender requested now : ℕ)
    → is_currently_holding t tx ≡ true
    → acquire t tx sender requested now ≡ (t, sent)
unfolding acquire acquire_held is_currently_holding
acquire-holder t tx sender requested now h = ground (arith, h)
