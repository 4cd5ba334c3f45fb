-- ===== src/RangeServer/PrefetchingBuffer/Completion.antt =====
-- What is left of the buffer when a transaction has completed.
use atomix.Base.{
  ℕ, ◌≡◌, refl, Bool, true, false, Option, none, some, List, [], ◌∷◌, Bytes, arith, ℕ_discrete,
  bytes_discrete, lookup, contains, discard, lookup-insert, lookup-remove, ite, Option-cases, inl,
  inr,
}
use atomix.RangeServer.PrefetchingBuffer.{
  State, or_empty, evict_key, put_back, remove_from_key_transactions, complete_key, complete_keys,
  process_transaction_complete,
}
use atomix.RangeServer.PrefetchingBuffer.Reads.{state_of, value_of}

-- The transactions that asked for a key, and the keys that a transaction asked for.
abbrev pub askers : State → Bytes → Option (List ℕ)
askers s key = lookup bytes_discrete key s.key_transactions

abbrev pub keys_of : State → ℕ → List Bytes
keys_of s tx = or_empty (lookup ℕ_discrete tx s.transaction_keys)

abbrev pub some_unless_nil : List ℕ → Option (List ℕ)
some_unless_nil [] = none
some_unless_nil (t ∷ ts) = some (t ∷ ts)

-- The askers without `tx`; no entry if nobody is left.
abbrev pub leave : ℕ → Option (List ℕ) → Option (List ℕ)
leave tx none = none
leave tx (some ts) = some_unless_nil (discard ℕ_discrete tx ts)

-- What is kept of a key with these askers.
abbrev pub kept {ℓ} : {A : Type ℓ} → Option (List ℕ) → Option A → Option A
kept none x = none
kept (some _) x = x

discard_idem :
    (t : ℕ) (ts : List ℕ) → discard ℕ_discrete t (discard ℕ_discrete t ts) ≡ discard ℕ_discrete t ts
unfolding discard
discard_idem t [] = refl
discard_idem t (u ∷ ts) = ground (arith, discard_idem t ts)

leave_idem : (t : ℕ) (o : Option (List ℕ)) → leave t (leave t o) ≡ leave t o
leave_idem t none = refl
leave_idem t (some ts) = ground (arith, discard_idem t ts)

lookup-put_back :
    (ts : List ℕ) (m : List (Bytes × List ℕ)) (key j : Bytes)
    → lookup bytes_discrete j (put_back ts key m)
      ≡ ite (bytes_discrete j key) (some_unless_nil ts) (lookup bytes_discrete j m)
unfolding put_back
lookup-put_back [] m key j = lookup-remove bytes_discrete j key m
lookup-put_back (t ∷ ts) m key j = lookup-insert bytes_discrete j key (t ∷ ts) m

lookup-remove_from :
    (m : List (Bytes × List ℕ)) (tx : ℕ) (key j : Bytes)
    → lookup bytes_discrete j (remove_from_key_transactions m tx key)
      ≡ ite
          (bytes_discrete j key)
          (leave tx (lookup bytes_discrete key m))
          (lookup bytes_discrete j m)
unfolding remove_from_key_transactions
lookup-remove_from m tx key j = elim (Option-cases (lookup bytes_discrete key m)) [
  | inl e ↦ ground arith
  | inr (ts, e) ↦ ground (arith, lookup-put_back (discard ℕ_discrete tx ts) m key j)
]

module _ (s : State) (tx : ℕ) (key j : Bytes) where
  askers-complete_key :
      askers (complete_key s tx key) j
      ≡ ite (bytes_discrete j key) (leave tx (askers s key)) (askers s j)
  unfolding complete_key evict_key
  askers-complete_key = ground (arith, lookup-remove_from s.key_transactions tx key j)

  state_of-complete_key :
      state_of (complete_key s tx key) j
      ≡ ite (bytes_discrete j key) (kept (leave tx (askers s key)) (state_of s key)) (state_of s j)
  unfolding complete_key evict_key
  state_of-complete_key = ground (
    arith,
    lookup-remove_from s.key_transactions tx key key,
    lookup-remove bytes_discrete j key s.key_state,
  )

  value_of-complete_key :
      value_of (complete_key s tx key) j
      ≡ ite (bytes_discrete j key) (kept (leave tx (askers s key)) (value_of s key)) (value_of s j)
  unfolding complete_key evict_key
  value_of-complete_key = ground (
    arith,
    lookup-remove_from s.key_transactions tx key key,
    lookup-remove bytes_discrete j key s.prefetch_store,
  )

abbrev pub if_among {ℓ} : {A : Type ℓ} → Bool → A → A → A
if_among true x y = x
if_among false x y = y

askers-complete_keys :
    (s : State) (tx : ℕ) (keys : List Bytes) (j : Bytes)
    → askers (complete_keys s tx keys) j
      ≡ if_among (contains bytes_discrete j keys) (leave tx (askers s j)) (askers s j)
unfolding complete_keys contains
askers-complete_keys s tx [] j = refl
askers-complete_keys s tx (key ∷ keys) j = ground (
  arith,
  askers-complete_keys (complete_key s tx key) tx keys j,
  askers-complete_key s tx key j,
  leave_idem tx (askers s j),
)

state_of-complete_keys :
    (s : State) (tx : ℕ) (keys : List Bytes) (j : Bytes)
    → state_of (complete_keys s tx keys) j
      ≡ if_among
          (contains bytes_discrete j keys)
          (kept (leave tx (askers s j)) (state_of s j))
          (state_of s j)
unfolding complete_keys contains
state_of-complete_keys s tx [] j = refl
state_of-complete_keys s tx (key ∷ keys) j = ground (
  arith,
  state_of-complete_keys (complete_key s tx key) tx keys j,
  askers-complete_key s tx key j,
  state_of-complete_key s tx key j,
  leave_idem tx (askers s j),
)

value_of-complete_keys :
    (s : State) (tx : ℕ) (keys : List Bytes) (j : Bytes)
    → value_of (complete_keys s tx keys) j
      ≡ if_among
          (contains bytes_discrete j keys)
          (kept (leave tx (askers s j)) (value_of s j))
          (value_of s j)
unfolding complete_keys contains
value_of-complete_keys s tx [] j = refl
value_of-complete_keys s tx (key ∷ keys) j = ground (
  arith,
  value_of-complete_keys (complete_key s tx key) tx keys j,
  askers-complete_key s tx key j,
  value_of-complete_key s tx key j,
  leave_idem tx (askers s j),
)

fields-complete_keys :
    (s : State) (tx : ℕ) (keys : List Bytes)
    → (complete_keys s tx keys).transaction_keys ≡ s.transaction_keys
unfolding complete_keys complete_key evict_key
fields-complete_keys s tx [] = refl
fields-complete_keys s tx (key ∷ keys) =
    ground (arith, fields-complete_keys (complete_key s tx key) tx keys)

-- What is left of each entry when a transaction completes: the transaction's own entry is gone and
-- the other transactions' are not; it has left the askers of each key that it asked for; a key
-- keeps its state and its value exactly if somebody still asks for it, or it was not the
-- transaction's.
pub process_transaction_complete_leaves :
    (s : State) (tx t : ℕ) (j : Bytes)
    → let s' = process_transaction_complete s tx in
      let mine = contains bytes_discrete j (keys_of s tx) in
      (keys_of s' t ≡ ite (ℕ_discrete t tx) [] (keys_of s t))
      × (askers s' j ≡ if_among mine (leave tx (askers s j)) (askers s j))
      × (state_of s' j ≡ if_among mine (kept (leave tx (askers s j)) (state_of s j)) (state_of s j))
      × (value_of s' j ≡ if_among mine (kept (leave tx (askers s j)) (value_of s j)) (value_of s j))
unfolding process_transaction_complete
process_transaction_complete_leaves s tx t j = (
  ground (
    arith,
    fields-complete_keys s tx (keys_of s tx),
    lookup-remove ℕ_discrete t tx s.transaction_keys,
  ),
  askers-complete_keys s tx (keys_of s tx) j,
  state_of-complete_keys s tx (keys_of s tx) j,
  value_of-complete_keys s tx (keys_of s tx) j,
)
