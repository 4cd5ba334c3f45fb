-- ===== src/RangeServer/PrefetchingBuffer/Links.antt =====
-- The bookkeeping of the buffer: the two maps between transactions and keys, and what is kept for a
-- key, agree after every critical section.
use atomix.Base.{
  ℕ, ◌≡◌, ◌≢◌, refl, Bool, true, false, Option, none, some, List, [], Bytes, arith, ℕ_discrete,
  bytes_discrete, lookup, insert, remove, contains, lookup-insert, lookup-remove, Option-cases, inl,
  inr, ◌∙◌, ap,
}
use atomix.RangeServer.PrefetchingBuffer.{
  State, KeyState, fetched, loading, requested, or_empty, new, send, publish, if_loading,
  store_value, fetch_complete, fetch_failed, settle, upsert, delete,
}
use atomix.RangeServer.PrefetchingBuffer.Reads.{
  state_of, value_of, state_of-publish, value_of-publish,
}
use atomix.RangeServer.PrefetchingBuffer.Completion.{askers, keys_of}

abbrev pub is_some {ℓ} : {A : Type ℓ} → Option A → Bool
is_some none = false
is_some (some x) = true

-- A transaction has asked for a key by one map exactly if it has by the other; a key that somebody asked
-- for has a state, and, unless a request may have come late, only such a key; no entry of askers is
-- empty; only a key with a state has a value.
pub record IsLinked (late : Bool) (s : State) : Type 0 where
  pub linked :
      (tx : ℕ) (key : Bytes)
      → contains bytes_discrete key (keys_of s tx)
        ≡ contains ℕ_discrete tx (or_empty (askers s key))
  pub kept : (key : Bytes) → is_some (askers s key) ≡ true → is_some (state_of s key) ≡ true
  pub owned :
      (key : Bytes) → late ≡ false → is_some (state_of s key) ≡ true → is_some (askers s key) ≡ true
  pub nonempty : (key : Bytes) → askers s key ≢ some []
  pub stored : (key : Bytes) → state_of s key ≡ none → value_of s key ≡ none

abbrev pub IsConsistent : State → Type 0
IsConsistent = IsLinked false

pub new-IsConsistent : IsConsistent new
unfolding lookup contains
new-IsConsistent = record {
  linked = λ tx key. refl;
  kept = λ key h. h;
  owned = λ key l h. h;
  nonempty = λ key e. cc;
  stored = λ key e. refl;
}

-- What changes neither map, nor which keys have a state, keeps them consistent.
pub frame :
    {late : Bool} (s s' : State)
    → IsLinked late s
    → s'.transaction_keys ≡ s.transaction_keys
    → s'.key_transactions ≡ s.key_transactions
    → ((j : Bytes) → is_some (state_of s' j) ≡ is_some (state_of s j))
    → ((j : Bytes) → state_of s' j ≡ none → value_of s' j ≡ none)
    → IsLinked late s'
frame s s' c tk kt st va = record {
  linked = λ tx key. rw (tk, kt) (c.linked tx key);
  kept = λ key. rw (kt, st key) (c.kept key);
  owned = λ key. rw (kt, st key) (c.owned key);
  nonempty = λ key. rw kt (c.nonempty key);
  stored = va;
}

fields-publish :
    (s : State) (key : Bytes) (k : KeyState)
    → ((publish s key k).transaction_keys ≡ s.transaction_keys)
      × ((publish s key k).key_transactions ≡ s.key_transactions)
unfolding publish send
fields-publish s key k = ground arith

-- A new state for a key that has one.
publish-IsLinked :
    {late : Bool} (s : State) (key : Bytes) (k : KeyState)
    → is_some (state_of s key) ≡ true
    → IsLinked late s
    → IsLinked late (publish s key k)
publish-IsLinked s key k h c =
    frame s (publish s key k) c (fields-publish s key k).0 (fields-publish s key k).1
      (λ j. ground (arith, state_of-publish s j key k))
      (λ j e. ground (arith, state_of-publish s j key k, value_of-publish s j key k, c.stored j))

-- A new value, or none, for a key that has a state.
stored-IsLinked :
    {late : Bool} (s : State) (key : Bytes) (store : List (Bytes × Bytes))
    → is_some (state_of s key) ≡ true
    → ((j : Bytes) → j ≢ key → lookup bytes_discrete j store ≡ value_of s j)
    → IsLinked late s
    → IsLinked late (record s { prefetch_store = store })
stored-IsLinked s key store h same c =
    frame s (record s { prefetch_store = store }) c refl refl (λ j. refl)
      (λ j e. elim (bytes_discrete j key) [
        | yes p ↦ absurd (ground arith)
        | no p ↦ same j p ∙ c.stored j e
      ])

if_loading_cases :
    (P : State → Type 0) (o : Option KeyState) (n : ℕ) (s' s : State)
    → (o ≡ some (loading n) → P s')
    → P s
    → P (if_loading o n s' s)
if_loading_cases P none n s' s h k = k
if_loading_cases P (some fetched) n s' s h k = k
if_loading_cases P (some (requested m)) n s' s h k = k
if_loading_cases P (some (loading m)) n s' s h k = elim (ℕ_discrete m n) [
  | yes e ↦ ground (arith, h (ap (λ x. some (loading x)) e))
  | no e ↦ ground arith
]

store_value-IsLinked :
    {late : Bool} (s : State) (key : Bytes) (found : Option Bytes)
    → is_some (state_of s key) ≡ true
    → IsLinked late s
    → IsLinked late (store_value s key found)
store_value-IsLinked s key none h c = c
store_value-IsLinked s key (some v) h c =
    stored-IsLinked s key (insert bytes_discrete key v s.prefetch_store) h
      (λ j ne. ground (arith, lookup-insert bytes_discrete j key v s.prefetch_store)) c

state_of-store_value :
    (s : State) (key j : Bytes) (found : Option Bytes)
    → state_of (store_value s key found) j ≡ state_of s j
state_of-store_value s key j none = refl
state_of-store_value s key j (some v) = refl

pub fetch_complete-IsLinked :
    {late : Bool} (s : State) (key : Bytes) (found : Option Bytes) (n : ℕ)
    → IsLinked late s
    → IsLinked late (fetch_complete s key found n)
unfolding fetch_complete
fetch_complete-IsLinked {late} s key found n c =
    if_loading_cases (IsLinked late) (state_of s key) n _ s
      (λ e.
        publish-IsLinked (store_value s key found) key fetched
          (rw (state_of-store_value s key key found, e))
          (store_value-IsLinked s key found (rw e) c))
      c

pub fetch_failed-IsLinked :
    {late : Bool} (s : State) (key : Bytes) (n : ℕ)
    → IsLinked late s
    → IsLinked late (fetch_failed s key n)
unfolding fetch_failed
fetch_failed-IsLinked {late} s key n c =
    if_loading_cases (IsLinked late) (state_of s key) n _ s
      (λ e. publish-IsLinked s key (requested n) (rw e) c) c

settle-IsLinked :
    {late : Bool} (s : State) (key : Bytes) → IsLinked late s → IsLinked late (settle s key)
unfolding settle
settle-IsLinked {late = late} s key c = go (state_of s key) refl
  where
    go :
        (o : Option KeyState)
        → state_of s key ≡ o
        → IsLinked late
            (elim o as (λ x. State) [ some (loading _) ↦ publish s key fetched | _ ↦ s ])
    go none e = c
    go (some fetched) e = c
    go (some (requested n)) e = c
    go (some (loading n)) e = publish-IsLinked s key fetched (rw e) c

pub upsert-IsLinked :
    {late : Bool} (s : State) (key v : Bytes) → IsLinked late s → IsLinked late (upsert s key v)
unfolding upsert
upsert-IsLinked s key v c = elim (Option-cases (state_of s key)) [
  | inl e ↦ rw (e, upsert) c
  | inr (k, e) ↦
      rw (e, upsert) (settle-IsLinked _ key (store_value-IsLinked s key (some v) (rw e) c))
]

pub delete-IsLinked :
    {late : Bool} (s : State) (key : Bytes) → IsLinked late s → IsLinked late (delete s key)
unfolding delete
delete-IsLinked s key c = elim (Option-cases (state_of s key)) [
  | inl e ↦ rw (e, delete) c
  | inr (k, e) ↦
      rw (e, delete)
        (settle-IsLinked _ key (
          stored-IsLinked s key (remove bytes_discrete key s.prefetch_store) (rw e)
            (λ j ne. ground (arith, lookup-remove bytes_discrete j key s.prefetch_store)) c))
]
