-- ===== src/RangeServer/PrefetchingBuffer/Requests.antt =====
-- The bookkeeping of the buffer under requests and completions, and over whole histories.
use atomix.Base.{
  ℕ, ◌+◌, ◌%◌, u64_mod, ◌≡◌, ◌≢◌, refl, Bool, true, false, Option, none, some, List, [], ◌∷◌, Bytes,
  arith, ℕ_discrete, bytes_discrete, contains, add, lookup, lookup-insert, contains-add, ite,
}
use atomix.RangeServer.PrefetchingBuffer.{
  State, KeyState, fetched, loading, requested, or_empty, note_request, add_to_transaction_keys,
  add_to_key_transactions, or_insert_requested, dispatch, begin_prefetch, make_channel,
  change_keystate_to_loading, resume_prefetch, panics,
}
use atomix.RangeServer.PrefetchingBuffer.Reads.{state_of, value_of}
use atomix.RangeServer.PrefetchingBuffer.Completion.{askers, keys_of}
use atomix.RangeServer.PrefetchingBuffer.Links.{IsLinked, is_some, frame}

module _ (s : State) (tx : ℕ) (key : Bytes) where
  keys_of-note :
      (t : ℕ) (j : Bytes)
      → contains bytes_discrete j (keys_of (note_request s tx key) t)
        ≡ ite
            (ℕ_discrete t tx)
            (ite (bytes_discrete j key) true (contains bytes_discrete j (keys_of s t)))
            (contains bytes_discrete j (keys_of s t))
  unfolding note_request add_to_transaction_keys
  keys_of-note t j = ground (
    arith,
    lookup-insert ℕ_discrete t tx (add bytes_discrete key (keys_of s tx)) s.transaction_keys,
    contains-add bytes_discrete j key (keys_of s tx),
  )

  askers-note :
      (j : Bytes)
      → askers (note_request s tx key) j
        ≡ ite
            (bytes_discrete j key)
            (some (add ℕ_discrete tx (or_empty (askers s key))))
            (askers s j)
  unfolding note_request add_to_key_transactions
  askers-note j =
      lookup-insert bytes_discrete j key (add ℕ_discrete tx (or_empty (askers s key)))
        s.key_transactions

  fields-note :
      ((note_request s tx key).key_state ≡ s.key_state)
      × ((note_request s tx key).prefetch_store ≡ s.prefetch_store)
  unfolding note_request
  fields-note = (refl, refl)

add-ne-nil : (t : ℕ) (ts : List ℕ) → add ℕ_discrete t ts ≢ []
unfolding add
add-ne-nil t [] e = cc
add-ne-nil t (u ∷ ts) e = ground arith

-- A request gives the key a state if it has none.
or_insert_fields :
    (s : State) (key j : Bytes)
    → ((or_insert_requested s key).transaction_keys ≡ s.transaction_keys)
      × ((or_insert_requested s key).key_transactions ≡ s.key_transactions)
      × ((or_insert_requested s key).prefetch_store ≡ s.prefetch_store)
      × (is_some (state_of (or_insert_requested s key) j)
          ≡ ite (bytes_discrete j key) true (is_some (state_of s j)))
unfolding or_insert_requested
or_insert_fields s key j = ground (
  arith,
  lookup-insert bytes_discrete j key (requested ((s.fetch_sequence_number + 1) % u64_mod))
      s.key_state,
)

-- The four views of the buffer after the bookkeeping of a request.
noted : State → ℕ → Bytes → State
noted s tx key = or_insert_requested (note_request s tx key) key

module _ (s : State) (tx : ℕ) (key j : Bytes) where
  askers-noted :
      askers (noted s tx key) j
      ≡ ite (bytes_discrete j key) (some (add ℕ_discrete tx (or_empty (askers s key)))) (askers s j)
  unfolding noted
  askers-noted =
      ground (arith, or_insert_fields (note_request s tx key) key j, askers-note s tx key j)

  keys_of-noted :
      (t : ℕ)
      → contains bytes_discrete j (keys_of (noted s tx key) t)
        ≡ ite
            (ℕ_discrete t tx)
            (ite (bytes_discrete j key) true (contains bytes_discrete j (keys_of s t)))
            (contains bytes_discrete j (keys_of s t))
  unfolding noted
  keys_of-noted t =
      rw (or_insert_fields (note_request s tx key) key j).0 (keys_of-note s tx key t j)

  state_of-noted :
      is_some (state_of (noted s tx key) j)
      ≡ ite (bytes_discrete j key) true (is_some (state_of s j))
  unfolding noted note_request
  state_of-noted = (or_insert_fields (note_request s tx key) key j).3

  value_of-noted : value_of (noted s tx key) j ≡ value_of s j
  unfolding noted
  value_of-noted = rw ((or_insert_fields (note_request s tx key) key j).2, (fields-note s tx key).1)

noted-IsLinked :
    {late : Bool} (s : State) (tx : ℕ) (key : Bytes)
    → IsLinked late s
    → IsLinked late (noted s tx key)
noted-IsLinked s tx key c = record {
  linked = λ t j. ground (
    arith,
    keys_of-noted s tx key j t,
    askers-noted s tx key j,
    contains-add ℕ_discrete t tx (or_empty (askers s key)),
    c.linked t j,
    c.linked t key,
  );
  kept = λ j h. ground (arith, state_of-noted s tx key j, askers-noted s tx key j, c.kept j);
  owned = λ j l h. ground (arith, state_of-noted s tx key j, askers-noted s tx key j, c.owned j l);
  nonempty = λ j e.
      ground
        (arith, askers-noted s tx key j, add-ne-nil tx (or_empty (askers s key)), c.nonempty j);
  stored = λ j e. ground (arith, state_of-noted s tx key j, value_of-noted s tx key j, c.stored j);
}

change_fields :
    (s : State) (key j : Bytes) (n : ℕ)
    → ((change_keystate_to_loading s key n).0.transaction_keys ≡ s.transaction_keys)
      × ((change_keystate_to_loading s key n).0.key_transactions ≡ s.key_transactions)
      × ((change_keystate_to_loading s key n).0.prefetch_store ≡ s.prefetch_store)
      × (is_some (state_of (change_keystate_to_loading s key n).0 j)
          ≡ ite (bytes_discrete j key) true (is_some (state_of s j)))
      × ((change_keystate_to_loading s key n).1 ≡ is_some (state_of s key))
unfolding change_keystate_to_loading make_channel
change_fields s key j n = ground (arith, lookup-insert bytes_discrete j key (loading n) s.key_state)

change-IsLinked :
    {late : Bool} (s : State) (key : Bytes) (n : ℕ)
    → is_some (state_of s key) ≡ true
    → IsLinked late s
    → IsLinked late (change_keystate_to_loading s key n).0
change-IsLinked s key n h c =
    let s' = (change_keystate_to_loading s key n).0 in
    frame s s' c (change_fields s key key n).0 (change_fields s key key n).1
      (λ j. ground (arith, (change_fields s key j n).3))
      (λ j e. ground (arith, (change_fields s key j n).3, (change_fields s key j n).2, c.stored j))

pub IsLinked-late : {late : Bool} (s : State) → IsLinked late s → IsLinked true s
IsLinked-late s c = record {
  linked = c.linked;
  kept = c.kept;
  owned = λ key e h. absurd (ground arith);
  nonempty = c.nonempty;
  stored = c.stored;
}

change-IsLinked_late :
    {late : Bool} (s : State) (key : Bytes) (n : ℕ)
    → IsLinked late s
    → IsLinked true (change_keystate_to_loading s key n).0
change-IsLinked_late s key n c = record {
  linked = λ tx j. ground (arith, change_fields s key j n, c.linked tx j);
  kept = λ j h. ground (arith, change_fields s key j n, c.kept j);
  owned = λ j e h. absurd (ground arith);
  nonempty = λ j e. ground (arith, change_fields s key j n, c.nonempty j);
  stored = λ j e. ground (arith, change_fields s key j n, c.stored j);
}

dispatch-IsLinked :
    {late : Bool} (s : State) (key : Bytes) (o : Option KeyState)
    → state_of s key ≡ o
    → IsLinked late s
    → IsLinked late (dispatch s key o).0
unfolding dispatch
dispatch-IsLinked s key none e c = c
dispatch-IsLinked s key (some fetched) e c = c
dispatch-IsLinked s key (some (loading n)) e c = c
dispatch-IsLinked s key (some (requested n)) e c =
    ground (arith, change_fields s key key n, change-IsLinked s key n (rw e) c)

pub begin_prefetch-IsLinked :
    {late : Bool} (s : State) (tx : ℕ) (key : Bytes)
    → IsLinked late s
    → IsLinked late (begin_prefetch s tx key).0
unfolding begin_prefetch noted
begin_prefetch-IsLinked s tx key c =
    dispatch-IsLinked (noted s tx key) key _ refl (noted-IsLinked s tx key c)

resume_fields :
    {late : Bool} (s : State) (key : Bytes) (n : ℕ) (receiver : Option ℕ) (changed : Bool)
    → is_some (state_of s key) ≡ true
    → IsLinked late s
    → IsLinked late (resume_prefetch s key n receiver changed).0
      × ((resume_prefetch s key n receiver changed).1 ≢ panics)
unfolding resume_prefetch
resume_fields s key n none changed h c = (c, λ e. cc)
resume_fields s key n (some r) false h c = (c, λ e. cc)
resume_fields s key n (some r) true h c =
    ground (arith, change_fields s key key n, change-IsLinked s key n h c)

-- A transaction that waits for a key, and is still registered for it, keeps the key in the buffer:
-- when it resumes, whatever happened meanwhile, it does not panic, and the maps stay consistent.
pub resume_prefetch_safe :
    {late : Bool} (s : State) (tx : ℕ) (key : Bytes) (n : ℕ) (receiver : Option ℕ) (changed : Bool)
    → contains bytes_discrete key (keys_of s tx) ≡ true
    → IsLinked late s
    → IsLinked late (resume_prefetch s key n receiver changed).0
      × ((resume_prefetch s key n receiver changed).1 ≢ panics)
unfolding contains
resume_prefetch_safe s tx key n receiver changed h c =
    resume_fields s key n receiver changed (ground (arith, c.linked tx key, c.kept key)) c

-- A request may resume at any time: all of the bookkeeping is kept but that only keys that somebody
-- asked for have a state.
pub resume_prefetch-IsLinked :
    {late : Bool} (s : State) (key : Bytes) (n : ℕ) (receiver : Option ℕ) (changed : Bool)
    → IsLinked late s
    → IsLinked true (resume_prefetch s key n receiver changed).0
unfolding resume_prefetch
resume_prefetch-IsLinked s key n none changed c = IsLinked-late s c
resume_prefetch-IsLinked s key n (some r) false c = IsLinked-late s c
resume_prefetch-IsLinked s key n (some r) true c =
    ground (arith, change_fields s key key n, IsLinked-late s c, change-IsLinked_late s key n c)

-- A request that waited, and resumes after a failed fetch when the key is evicted, panics, and leaves
-- the key loading, whoever asks for it.
pub resume_prefetch_stale :
    (s : State) (key : Bytes) (n c m : ℕ)
    → state_of s key ≡ none
    → lookup ℕ_discrete c s.channels ≡ some (requested m)
    → ((resume_prefetch s key n (some c) true).1 ≡ panics)
      × (state_of (resume_prefetch s key n (some c) true).0 key ≡ some (loading n))
      × (askers (resume_prefetch s key n (some c) true).0 key ≡ askers s key)
unfolding resume_prefetch change_keystate_to_loading
resume_prefetch_stale s key n c m e k =
    ground (arith, e, k, lookup-insert bytes_discrete key key (loading n) s.key_state)
