-- ===== src/RangeServer/PrefetchingBuffer.antt =====
-- rangeserver/src/prefetching_buffer.rs: the values that transactions asked to have in memory.
-- Each function below is one critical section under the buffer's mutex. A watch channel is a number,
-- and `channels` holds the value that was last sent on it; the map of senders and the map of
-- receivers are two fields, as in the source.
mod Loads
mod Reads
mod Links
mod Requests
mod Histories
mod Completion
mod Examples
use atomix.Base.{
  ℕ, ◌+◌, ◌%◌, Bool, true, false, Option, none, some, List, [], ◌∷◌, Bytes, ◌==◌, if◌then◌else◌,
  ℕ_discrete, bytes_discrete, lookup, insert, remove, contains, add, discard, u64_mod,
}

pub data KeyState : Type 0 where
  fetched : KeyState
  loading requested : ℕ → KeyState

pub record State : Type 0 where
  pub prefetch_store : List (Bytes × Bytes)
  pub key_state : List (Bytes × KeyState)
  pub transaction_keys : List (ℕ × List Bytes)
  pub key_transactions : List (Bytes × List ℕ)
  pub key_state_watcher : List (Bytes × ℕ)
  pub key_state_sender : List (Bytes × ℕ)
  pub fetch_sequence_number : ℕ
  pub channels : List (ℕ × KeyState)
  pub channels_made : ℕ

abbrev pub new : State
new = record {
  prefetch_store = [];
  key_state = [];
  transaction_keys = [];
  key_transactions = [];
  key_state_watcher = [];
  key_state_sender = [];
  fetch_sequence_number = 0;
  channels = [];
  channels_made = 0;
}

-- `Result<Option<Bytes>, ()>`.
pub data Read : Type 0 where
  ok : Option Bytes → Read
  err : Read

-- A key that is marked as fetched and has no value is an error.
pub read_fetched : Option Bytes → Read
read_fetched none = err
read_fetched (some value) = ok (some value)

abbrev pub if_fetched : Option KeyState → Read → Read
if_fetched (some fetched) r = r
if_fetched _ r = ok none

pub get_from_buffer : State → Bytes → Read
get_from_buffer s key =
    if_fetched (lookup bytes_discrete key s.key_state)
      (read_fetched (lookup bytes_discrete key s.prefetch_store))

abbrev pub or_empty : {A : Type 0} → Option (List A) → List A
or_empty none = []
or_empty (some s) = s

-- The set of an absent entry is made empty first.
pub add_to_transaction_keys : List (ℕ × List Bytes) → ℕ → Bytes → List (ℕ × List Bytes)
add_to_transaction_keys m transaction_id key =
    insert ℕ_discrete transaction_id
      (add bytes_discrete key (or_empty (lookup ℕ_discrete transaction_id m))) m

pub add_to_key_transactions : List (Bytes × List ℕ) → ℕ → Bytes → List (Bytes × List ℕ)
add_to_key_transactions m transaction_id key =
    insert bytes_discrete key
      (add ℕ_discrete transaction_id (or_empty (lookup bytes_discrete key m))) m

-- `key_state.entry(key).or_insert_with(..)`, with the counter of the closure.
pub or_insert_requested : State → Bytes → State
or_insert_requested s key = elim (lookup bytes_discrete key s.key_state) [
  | some _ ↦ s
  | none ↦
      let n = (s.fetch_sequence_number + 1) % u64_mod in
      record s {
        key_state = insert bytes_discrete key (requested n) s.key_state;
        fetch_sequence_number = n;
      }
]

-- The channel of a key is made once.
pub make_channel : State → Bytes → ℕ → State
make_channel s key n = elim (lookup bytes_discrete key s.key_state_watcher) [
  | some _ ↦ s
  | none ↦ record s {
    key_state_watcher = insert bytes_discrete key s.channels_made s.key_state_watcher;
    key_state_sender = insert bytes_discrete key s.channels_made s.key_state_sender;
    channels = insert ℕ_discrete s.channels_made (loading n) s.channels;
    channels_made = s.channels_made + 1;
  }
]

-- `false` for `Err(())`, which every caller unwraps.
pub change_keystate_to_loading : State → Bytes → ℕ → State × Bool
change_keystate_to_loading s key n =
    let marked = record s { key_state = insert bytes_discrete key (loading n) s.key_state } in
    elim (lookup bytes_discrete key s.key_state) [
      | some _ ↦ (make_channel marked key n, true)
      | none ↦ (marked, false)
    ]

-- How a critical section of `process_prefetch_request` ends.
pub data Begun : Type 0 where
  returns : KeyState → Begun
  waits : ℕ → Begun
  panics : Begun

abbrev returns_if : State × Bool → KeyState → State × Begun
returns_if (s, true) k = (s, returns k)
returns_if (s, false) k = (s, panics)

pub note_request : State → ℕ → Bytes → State
note_request s transaction_id key = record s {
  transaction_keys = add_to_transaction_keys s.transaction_keys transaction_id key;
  key_transactions = add_to_key_transactions s.key_transactions transaction_id key;
}

-- `match key_state`.
pub dispatch : State → Bytes → Option KeyState → State × Begun
dispatch s key none = (s, panics)
dispatch s key (some fetched) = (s, returns fetched)
dispatch s key (some (loading n)) = (s, waits n)
dispatch s key (some (requested n)) = returns_if (change_keystate_to_loading s key n) (requested n)

-- The first critical section of `process_prefetch_request`: it returns, or waits for the fetch with
-- the number that it found.
pub begin_prefetch : State → ℕ → Bytes → State × Begun
begin_prefetch s transaction_id key =
    let s' = or_insert_requested (note_request s transaction_id key) key in
    dispatch s' key (lookup bytes_discrete key s'.key_state)

-- The second: the receiver that the caller clones.
pub watcher_of : State → Bytes → Option ℕ
watcher_of s key = lookup bytes_discrete key s.key_state_watcher

-- The third, when `receiver.changed()` has returned; `changed` says whether it returned `Ok`.
pub resume_prefetch : State → Bytes → (n : ℕ) (receiver : Option ℕ) (changed : Bool) → State × Begun
resume_prefetch s key n none changed = (s, returns (loading n))
resume_prefetch s key n (some c) false = (s, returns (loading n))
resume_prefetch s key n (some c) true = elim (lookup ℕ_discrete c s.channels) [
  | some fetched ↦ (s, returns fetched)
  | _ ↦ returns_if (change_keystate_to_loading s key n) (requested n)
]

pub send : State → Bytes → KeyState → State
send s key k = elim (lookup bytes_discrete key s.key_state_sender) [
  | none ↦ s
  | some c ↦ record s { channels = insert ℕ_discrete c k s.channels }
]

-- The new state of a key, and its watchers told.
pub publish : State → Bytes → KeyState → State
publish s key k = send (record s { key_state = insert bytes_discrete key k s.key_state }) key k

-- `if let Some(KeyState::Loading(n)) = key_state.get(&key) { if *n == number { .. } }`.
abbrev pub if_loading : Option KeyState → ℕ → State → State → State
if_loading (some (loading m)) n s' s = if m == n then s' else s
if_loading _ n s' s = s

abbrev pub store_value : State → Bytes → Option Bytes → State
store_value s key none = s
store_value s key (some value) = record s {
  prefetch_store = insert bytes_discrete key value s.prefetch_store;
}

pub fetch_complete : State → Bytes → Option Bytes → ℕ → State
fetch_complete s key value n =
    if_loading (lookup bytes_discrete key s.key_state) n
      (publish (store_value s key value) key fetched) s

pub fetch_failed : State → Bytes → ℕ → State
fetch_failed s key n =
    if_loading (lookup bytes_discrete key s.key_state) n (publish s key (requested n)) s

-- The end of `upsert` and `delete`: a load that is under way counts as done.
pub settle : State → Bytes → State
settle s key = elim (lookup bytes_discrete key s.key_state) [
  | some (loading _) ↦ publish s key fetched
  | _ ↦ s
]

pub upsert : State → Bytes → Bytes → State
upsert s key value = elim (lookup bytes_discrete key s.key_state) [
  | none ↦ s
  | some _ ↦
      settle (record s { prefetch_store = insert bytes_discrete key value s.prefetch_store }) key
]

pub delete : State → Bytes → State
delete s key = elim (lookup bytes_discrete key s.key_state) [
  | none ↦ s
  | some _ ↦ settle (record s { prefetch_store = remove bytes_discrete key s.prefetch_store }) key
]

pub evict_key : State → Bytes → State
evict_key s key = record s {
  prefetch_store = remove bytes_discrete key s.prefetch_store;
  key_state = remove bytes_discrete key s.key_state;
}

-- The entry of a key whose set has changed: an empty set is removed.
pub put_back : List ℕ → Bytes → List (Bytes × List ℕ) → List (Bytes × List ℕ)
put_back [] key m = remove bytes_discrete key m
put_back (t ∷ ts) key m = insert bytes_discrete key (t ∷ ts) m

pub remove_from_key_transactions : List (Bytes × List ℕ) → ℕ → Bytes → List (Bytes × List ℕ)
remove_from_key_transactions m transaction_id key = elim (lookup bytes_discrete key m) [
  | none ↦ m
  | some s ↦ put_back (discard ℕ_discrete transaction_id s) key m
]

-- One round of the loop of `process_transaction_complete`.
pub complete_key : State → ℕ → Bytes → State
complete_key s transaction_id key =
    let left = remove_from_key_transactions s.key_transactions transaction_id key in
    let s' = record s { key_transactions = left } in
    elim (lookup bytes_discrete key left) [ none ↦ evict_key s' key | some _ ↦ s' ]

pub complete_keys : State → ℕ → List Bytes → State
complete_keys s transaction_id [] = s
complete_keys s transaction_id (key ∷ keys) =
    complete_keys (complete_key s transaction_id key) transaction_id keys

pub process_transaction_complete : State → ℕ → State
process_transaction_complete s transaction_id =
    let s' =
      complete_keys s transaction_id
        (or_empty (lookup ℕ_discrete transaction_id s.transaction_keys)) in
    record s' { transaction_keys = remove ℕ_discrete transaction_id s'.transaction_keys }
