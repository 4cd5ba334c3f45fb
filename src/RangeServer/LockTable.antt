-- ===== src/RangeServer/LockTable.antt =====
-- rangeserver/src/range_manager/lock_table.rs: the one lock of a range, with its two queues.
-- A transaction is its id, the 128 bits of the uuid read as a number. A oneshot channel is the number
-- of its sender; `alive s` says whether its receiver still exists, which the environment decides, and
-- a `send` to a dropped receiver makes `unwrap` panic. The clock is an argument.
pub mod Order
mod Release
mod Turns
mod Examples
use atomix.Base.{
  ℕ, Bool, true, false, Option, none, some, List, [], ◌∷◌, ◌++◌, ltb, ◌==◌, if◌then◌else◌,
}

pub record CurrentLockHolder : Type 0 where
  pub transaction : ℕ
  pub when_acquired : ℕ
  pub when_requested : ℕ

pub record LockRequest : Type 0 where
  pub transaction : ℕ
  pub sender : ℕ
  pub when_requested : ℕ

-- The front of a queue is the head of its list.
pub record State : Type 0 where
  pub current_holder : Option CurrentLockHolder
  pub waiting_for_release : List LockRequest
  pub waiting_to_acquire : List LockRequest

unfoldable pub new : State
new = record { current_holder = none; waiting_for_release = []; waiting_to_acquire = [] }

-- What a call does with the channel that it makes: the permit is sent at once, the sender is queued,
-- or the transaction is told to die.
pub data Grant : Type 0 where
  sent queued wait_die : Grant

pub push_back : List LockRequest → LockRequest → List LockRequest
push_back [] r = r ∷ []
push_back (q ∷ qs) r = q ∷ push_back qs r

-- `queue.back().map_or(d, |r| r.transaction.id)`.
pub back_id : List LockRequest → ℕ → ℕ
back_id [] d = d
back_id (q ∷ qs) d = back_id qs q.transaction

pub maybe_wait_for_current_holder : State → (tx sender now : ℕ) → State × Grant
unfolding push_back
maybe_wait_for_current_holder s tx sender now = elim s.current_holder [
  | none ↦ (s, sent)
  | some _ ↦ (
    record s {
      waiting_for_release =
          push_back s.waiting_for_release
            (record { transaction = tx; sender = sender; when_requested = now });
    },
    queued,
  )
]

-- `acquire` while `holder` has the lock. `now` is the second reading of the clock.
unfoldable pub acquire_held : State → CurrentLockHolder → (tx sender now : ℕ) → State × Grant
unfolding push_back back_id
acquire_held s holder tx sender now =
    if holder.transaction == tx
    then (s, sent)
    else if ltb tx (back_id s.waiting_to_acquire holder.transaction)
    then (s, wait_die)
    else (
      record s {
        waiting_to_acquire =
            push_back s.waiting_to_acquire
              (record { transaction = tx; sender = sender; when_requested = now });
      },
      queued,
    )

unfoldable pub acquire : State → (tx sender when_requested now : ℕ) → State × Grant
unfolding acquire_held
acquire s tx sender when_requested now = elim s.current_holder [
  | none ↦ (
    record s {
      current_holder = some (record {
        transaction = tx;
        when_acquired = when_requested;
        when_requested = when_requested;
      });
    },
    sent,
  )
  | some holder ↦ acquire_held s holder tx sender now
]

-- The state that a call leaves, the senders that it used, and whether it ran to its end or panicked
-- at a closed channel.
pub record Released : Type 0 where
  pub state : State
  pub notified : List ℕ
  pub completed : Bool

-- The `while` loop over `waiting_for_release`: the requests left, the senders used, and whether the
-- queue was emptied.
unfoldable pub notify_all : (ℕ → Bool) → List LockRequest → List LockRequest × List ℕ × Bool
notify_all alive [] = ([], [], true)
notify_all alive (q ∷ qs) =
    let (rest, told, done) = notify_all alive qs in
    if alive q.sender then (rest, q.sender ∷ told, done) else (qs, [], false)

-- The hand-over to the head of `waiting_to_acquire`, with `told` already notified.
unfoldable pub hand_over : (ℕ → Bool) → State → (now : ℕ) → List LockRequest → List ℕ → Released
hand_over alive s now [] told = record { state = s; notified = told; completed = true }
hand_over alive s now (q ∷ qs) told =
    let next = record s {
      waiting_to_acquire = qs;
      current_holder = some (record {
        transaction = q.transaction;
        when_acquired = now;
        when_requested = q.when_requested;
      });
    } in
    if alive q.sender
    then record { state = next; notified = told ++ q.sender ∷ []; completed = true }
    else record { state = next; notified = told; completed = false }

unfoldable pub release : (ℕ → Bool) → State → (now : ℕ) → Released
unfolding notify_all hand_over
release alive s now =
    let (rest, told, done) = notify_all alive s.waiting_for_release in
    let cleared = record s { current_holder = none; waiting_for_release = rest } in
    if done
    then hand_over alive cleared now s.waiting_to_acquire told
    else record { state = cleared; notified = told; completed = false }

unfoldable pub is_currently_holding : State → ℕ → Bool
is_currently_holding s tx_id = elim s.current_holder [
  | none ↦ false
  | some current ↦ current.transaction == tx_id
]
