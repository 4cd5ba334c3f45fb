-- ===== src/RangeServer/PrefetchingBuffer/Reads.antt =====
-- What a read finds after a fetch, a write or a delete.
use atomix.Base.{
  ℕ, ◌≡◌, Option, none, some, Bytes, arith, bytes_discrete, lookup, insert, remove, if◌then◌else◌,
  ◌==◌, lookup-insert, lookup-remove, ite,
}
use atomix.RangeServer.PrefetchingBuffer.{
  State, KeyState, fetched, loading, Read, ok, err, read_fetched, get_from_buffer, send, publish,
  fetch_complete, fetch_failed, settle, upsert, delete,
}

abbrev pub state_of : State → Bytes → Option KeyState
state_of s key = lookup bytes_discrete key s.key_state

abbrev pub value_of : State → Bytes → Option Bytes
value_of s key = lookup bytes_discrete key s.prefetch_store

pub state_of-publish :
    (s : State) (j key : Bytes) (k : KeyState)
    → state_of (publish s key k) j ≡ ite (bytes_discrete j key) (some k) (state_of s j)
unfolding publish send
state_of-publish s j key k = ground (arith, lookup-insert bytes_discrete j key k s.key_state)

pub value_of-publish :
    (s : State) (j key : Bytes) (k : KeyState) → value_of (publish s key k) j ≡ value_of s j
unfolding publish send
value_of-publish s j key k = ground arith

-- A write beats the fetch that it overtakes: while a key is being loaded, an `upsert` makes its
-- value the one that is read, and a fetch that ends later, under any number and with any result,
-- changes nothing.
pub upsert_beats_fetch :
    (s : State) (key v : Bytes) (found : Option Bytes) (n m : ℕ)
    → state_of s key ≡ some (loading n)
    → (get_from_buffer (upsert s key v) key ≡ ok (some v))
      × (fetch_complete (upsert s key v) key found m ≡ upsert s key v)
      × (fetch_failed (upsert s key v) key m ≡ upsert s key v)
unfolding upsert settle get_from_buffer fetch_complete fetch_failed read_fetched
upsert_beats_fetch s key v found n m e = ground (
  arith,
  lookup-insert bytes_discrete key key v s.prefetch_store,
  state_of-publish (record s { prefetch_store = insert bytes_discrete key v s.prefetch_store }) key
      key fetched,
  value_of-publish (record s { prefetch_store = insert bytes_discrete key v s.prefetch_store }) key
      key fetched,
)

-- While a key is being loaded, a `delete` takes effect at once: a fetch that ends later changes
-- nothing. The read that follows fails, although the key has simply no value.
pub delete_beats_fetch :
    (s : State) (key : Bytes) (found : Option Bytes) (n m : ℕ)
    → state_of s key ≡ some (loading n)
    → (get_from_buffer (delete s key) key ≡ err)
      × (fetch_complete (delete s key) key found m ≡ delete s key)
      × (fetch_failed (delete s key) key m ≡ delete s key)
unfolding delete settle get_from_buffer fetch_complete fetch_failed read_fetched
delete_beats_fetch s key found n m e = ground (
  arith,
  lookup-remove bytes_discrete key key s.prefetch_store,
  state_of-publish (record s { prefetch_store = remove bytes_discrete key s.prefetch_store }) key
      key fetched,
  value_of-publish (record s { prefetch_store = remove bytes_discrete key s.prefetch_store }) key
      key fetched,
)

-- The answer for a key that has been asked for: `r` once it is fetched, or will be by this write.
abbrev pub after_write : Option KeyState → Read → Read
after_write (some fetched) r = r
after_write (some (loading n)) r = r
after_write _ r = ok none

-- What every read finds after an `upsert`: a key that no transaction asked for, or whose fetch has
-- failed and not begun again, is left to the storage; the other keys read as before.
pub get_from_buffer-upsert :
    (s : State) (key v j : Bytes)
    → get_from_buffer (upsert s key v) j
      ≡ ite
          (bytes_discrete j key)
          (after_write (state_of s key) (ok (some v)))
          (get_from_buffer s j)
unfolding upsert settle get_from_buffer read_fetched
get_from_buffer-upsert s key v j = ground (
  arith,
  lookup-insert bytes_discrete j key v s.prefetch_store,
  state_of-publish (record s { prefetch_store = insert bytes_discrete key v s.prefetch_store }) j
      key fetched,
  value_of-publish (record s { prefetch_store = insert bytes_discrete key v s.prefetch_store }) j
      key fetched,
)

-- What every read finds after a `delete`: the deleted key, if it was fetched or being loaded, reads
-- as an error, and the other keys read as before.
pub get_from_buffer-delete :
    (s : State) (key j : Bytes)
    → get_from_buffer (delete s key) j
      ≡ ite (bytes_discrete j key) (after_write (state_of s key) err) (get_from_buffer s j)
unfolding delete settle get_from_buffer read_fetched
get_from_buffer-delete s key j = ground (
  arith,
  lookup-remove bytes_discrete j key s.prefetch_store,
  state_of-publish (record s { prefetch_store = remove bytes_discrete key s.prefetch_store }) j key
      fetched,
  value_of-publish (record s { prefetch_store = remove bytes_discrete key s.prefetch_store }) j key
      fetched,
)

-- The answer for the key, from its state, the number, what was found, what was stored and what was read.
abbrev pub after_fetch : Option KeyState → ℕ → Option Bytes → Option Bytes → Read → Read
after_fetch (some (loading m)) n (some v) old r = if m == n then ok (some v) else r
after_fetch (some (loading m)) n none old r = if m == n then read_fetched old else r
after_fetch _ n found old r = r

-- What every read finds after a fetch has ended: with the number under which the key is loading, the
-- value that was found, or an error if there is none and none was stored; with any other number, or
-- for any other key, what it found before.
pub get_from_buffer-fetch_complete :
    (s : State) (key j : Bytes) (found : Option Bytes) (n : ℕ)
    → get_from_buffer (fetch_complete s key found n) j
      ≡ ite
          (bytes_discrete j key)
          (after_fetch (state_of s key) n found (value_of s key) (get_from_buffer s j))
          (get_from_buffer s j)
unfolding get_from_buffer fetch_complete read_fetched
get_from_buffer-fetch_complete s key j none n =
    ground (arith, state_of-publish s j key fetched, value_of-publish s j key fetched)
get_from_buffer-fetch_complete s key j (some v) n = ground (
  arith,
  lookup-insert bytes_discrete j key v s.prefetch_store,
  state_of-publish (record s { prefetch_store = insert bytes_discrete key v s.prefetch_store }) j
      key fetched,
  value_of-publish (record s { prefetch_store = insert bytes_discrete key v s.prefetch_store }) j
      key fetched,
)
