-- ===== src/RangeServer/PrefetchingBuffer/Loads.antt =====
-- Who fetches a key, and what a fetch may write.
use atomix.Base.{
  ℕ, ◌+◌, ◌%◌, u64_mod, ◌≡◌, ◌≢◌, true, some, Bytes, arith, bytes_discrete, lookup-insert,
  Option-cases, inl, inr,
}
use atomix.RangeServer.PrefetchingBuffer.{
  State, KeyState, fetched, loading, requested, dispatch, returns, waits, panics, begin_prefetch,
  or_insert_requested, note_request, make_channel, change_keystate_to_loading, fetch_failed,
}
use atomix.RangeServer.PrefetchingBuffer.Reads.{state_of, state_of-publish}

-- A key whose fetch failed is fetched by the next caller, under the number that it has.
begin_prefetch_fetches :
    (s : State) (tx : ℕ) (key : Bytes) (n : ℕ)
    → state_of s key ≡ some (requested n)
    → (begin_prefetch s tx key).1 ≡ returns (requested n)
unfolding begin_prefetch dispatch or_insert_requested note_request change_keystate_to_loading
begin_prefetch_fetches s tx key n e = ground arith

-- The key's state after a request is never missing.
state_of-or_insert_requested :
    (s : State) (key : Bytes) → (k : KeyState) × (state_of (or_insert_requested s key) key ≡ some k)
unfolding or_insert_requested
state_of-or_insert_requested s key = elim (Option-cases (state_of s key)) [
  | inl e ↦
      let k = requested ((s.fetch_sequence_number + 1) % u64_mod) in
      (k, ground (arith, lookup-insert bytes_discrete key key k s.key_state))
  | inr (k, e) ↦ (k, ground arith)
]

change-loading :
    (s : State) (key : Bytes) (n : ℕ) (k : KeyState)
    → state_of s key ≡ some k
    → (state_of (change_keystate_to_loading s key n).0 key ≡ some (loading n))
      × ((change_keystate_to_loading s key n).1 ≡ true)
unfolding change_keystate_to_loading make_channel
change-loading s key n k e =
    ground (arith, lookup-insert bytes_discrete key key (loading n) s.key_state)

dispatch_owner :
    (s : State) (key : Bytes) (k : KeyState) (n : ℕ)
    → state_of s key ≡ some k
    → ((dispatch s key (some k)).1 ≢ panics)
      × ((dispatch s key (some k)).1 ≡ returns (requested n)
          → state_of (dispatch s key (some k)).0 key ≡ some (loading n))
unfolding dispatch
dispatch_owner s key fetched n e = (λ h. cc, λ h. cc)
dispatch_owner s key (loading m) n e = (λ h. cc, λ h. cc)
dispatch_owner s key (requested m) n e = (
  ground (arith, change-loading s key m (requested m) e),
  ground (arith, change-loading s key m (requested m) e),
)

-- Once a key is being loaded, a request for it waits for that fetch.
begin_prefetch_waits :
    (s : State) (tx : ℕ) (key : Bytes) (n : ℕ)
    → state_of s key ≡ some (loading n)
    → (begin_prefetch s tx key).1 ≡ waits n
unfolding begin_prefetch dispatch or_insert_requested note_request
begin_prefetch_waits s tx key n e = ground arith

begin_prefetch_first :
    (s : State) (tx : ℕ) (key : Bytes) (n : ℕ)
    → ((begin_prefetch s tx key).1 ≢ panics)
      × ((begin_prefetch s tx key).1 ≡ returns (requested n)
          → state_of (begin_prefetch s tx key).0 key ≡ some (loading n))
unfolding begin_prefetch
begin_prefetch_first s tx key n =
    let (k, e) = state_of-or_insert_requested (note_request s tx key) key in
    rw e (dispatch_owner (or_insert_requested (note_request s tx key) key) key k n e)

-- The first critical section of a request never panics. If it makes the caller fetch the key, with
-- number `n`, the key is being loaded under that number, and whoever asks for it next waits for this
-- fetch: a key has one fetcher.
pub begin_prefetch_owner :
    (s : State) (tx other : ℕ) (key : Bytes) (n : ℕ)
    → ((begin_prefetch s tx key).1 ≢ panics)
      × ((begin_prefetch s tx key).1 ≡ returns (requested n)
          → (state_of (begin_prefetch s tx key).0 key ≡ some (loading n))
            × ((begin_prefetch (begin_prefetch s tx key).0 other key).1 ≡ waits n))
begin_prefetch_owner s tx other key n =
    let (safe, owner) = begin_prefetch_first s tx key n in
    (safe, λ h. (owner h, begin_prefetch_waits (begin_prefetch s tx key).0 other key n (owner h)))

-- A failed fetch gives its number to the next one who asks, and that one alone: after `fetch_failed`
-- with the number under which the key is loading, the next request fetches it under the same number.
pub fetch_failed_retry :
    (s : State) (tx : ℕ) (key : Bytes) (n : ℕ)
    → state_of s key ≡ some (loading n)
    → ((begin_prefetch (fetch_failed s key n) tx key).1 ≡ returns (requested n))
      × (state_of (begin_prefetch (fetch_failed s key n) tx key).0 key ≡ some (loading n))
unfolding fetch_failed
fetch_failed_retry s tx key n e =
    let again : state_of (fetch_failed s key n) key ≡ some (requested n) =
      ground (arith, state_of-publish s key key (requested n)) in
    let fetches = begin_prefetch_fetches (fetch_failed s key n) tx key n again in
    (fetches, (begin_prefetch_first (fetch_failed s key n) tx key n).1 fetches)
