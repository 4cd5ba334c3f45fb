-- ===== src/RangeServer/PrefetchingBuffer/Histories.antt =====
-- The bookkeeping of the buffer when transactions complete, and over whole histories.
use atomix.Base.{
  ℕ, ◌≡◌, ◌≢◌, refl, Bool, true, false, ◌||◌, Option, none, some, List, [], ◌∷◌, Bytes, arith,
  ℕ_discrete, bytes_discrete, contains, contains-discard, ite,
}
use atomix.RangeServer.PrefetchingBuffer.{
  State, or_empty, begin_prefetch, resume_prefetch, upsert, delete, fetch_complete, fetch_failed,
  process_transaction_complete,
}
use atomix.RangeServer.PrefetchingBuffer.Reads.{state_of, value_of}
use atomix.RangeServer.PrefetchingBuffer.Completion.{
  askers, keys_of, leave, process_transaction_complete_leaves,
}
use atomix.RangeServer.PrefetchingBuffer.Links.{
  IsLinked, IsConsistent, is_some, fetch_complete-IsLinked, fetch_failed-IsLinked, upsert-IsLinked,
  delete-IsLinked,
}
use atomix.RangeServer.PrefetchingBuffer.Requests.{
  begin_prefetch-IsLinked, resume_prefetch-IsLinked, resume_prefetch_safe,
}

contains-leave :
    (t tx : ℕ) (o : Option (List ℕ))
    → contains ℕ_discrete t (or_empty (leave tx o))
      ≡ ite (ℕ_discrete t tx) false (contains ℕ_discrete t (or_empty o))
unfolding contains
contains-leave t tx none = ground arith
contains-leave t tx (some ts) = ground (arith, contains-discard ℕ_discrete t tx ts)

leave-ne-empty : (tx : ℕ) (o : Option (List ℕ)) → leave tx o ≢ some []
leave-ne-empty tx none e = cc
leave-ne-empty tx (some ts) e = ground arith

-- When a transaction completes, its requests are forgotten and the two maps still agree.
pub process_transaction_complete-IsLinked :
    {late : Bool} (s : State) (tx : ℕ)
    → IsLinked late s
    → IsLinked late (process_transaction_complete s tx)
unfolding contains
process_transaction_complete-IsLinked s tx c = record {
  linked = λ t j. ground (
    arith,
    process_transaction_complete_leaves s tx t j,
    contains-leave t tx (askers s j),
    c.linked t j,
    c.linked tx j,
  );
  kept = λ j h. ground (arith, process_transaction_complete_leaves s tx tx j, c.kept j);
  owned = λ j l h. ground (arith, process_transaction_complete_leaves s tx tx j, c.owned j l);
  nonempty = λ j e. ground (
    arith,
    process_transaction_complete_leaves s tx tx j,
    leave-ne-empty tx (askers s j),
    c.nonempty j,
  );
  stored = λ j e. ground (arith, process_transaction_complete_leaves s tx tx j, c.stored j);
}

-- Whether a transaction other than `tx` is among the askers.
abbrev pub AskedByOther : State → ℕ → Bytes → Type 0
AskedByOther s tx key = (t : ℕ) × (t ≢ tx) × (contains bytes_discrete key (keys_of s t) ≡ true)

asked_some :
    (s : State) (t : ℕ) (key : Bytes)
    → IsConsistent s
    → contains bytes_discrete key (keys_of s t) ≡ true
    → is_some (askers s key) ≡ true
unfolding contains
asked_some s t key c h = ground (arith, c.linked t key)

-- An asker of a key after the completion of `tx` is another transaction, which asked for it before.
asker_is_other :
    (s : State) (tx u : ℕ) (us : List ℕ) (key : Bytes)
    → IsConsistent s
    → askers (process_transaction_complete s tx) key ≡ some (u ∷ us)
    → (u ≢ tx) × (contains bytes_discrete key (keys_of s u) ≡ true)
unfolding contains
asker_is_other s tx u us key c e =
    let c' = process_transaction_complete-IsLinked s tx c in
    let leaves = process_transaction_complete_leaves s tx u key in
    (λ same. ground (arith, c'.linked u key, leaves), ground (arith, c'.linked u key, leaves))

-- When a transaction completes on a consistent buffer, a key that another transaction asked for
-- keeps its state and its value, and a key that no other transaction asked for is gone from both.
pub process_transaction_complete_evicts :
    (s : State) (tx : ℕ) (key : Bytes)
    → IsConsistent s
    → let s' = process_transaction_complete s tx in
      (AskedByOther s tx key
        → (state_of s' key ≡ state_of s key) × (value_of s' key ≡ value_of s key))
      × (¬ AskedByOther s tx key → (state_of s' key ≡ none) × (value_of s' key ≡ none))
process_transaction_complete_evicts s tx key c = (
  λ (t, other, asked).
      let leaves = process_transaction_complete_leaves s tx t key in
      let still = asked_some s' t key c' (ground (arith, leaves)) in ground (arith, leaves, still),
  λ alone. gone (askers s' key) refl alone,
)
  where
    s' : State
    s' = process_transaction_complete s tx

    c' : IsConsistent s'
    c' = process_transaction_complete-IsLinked s tx c

    gone :
        (o : Option (List ℕ))
        → askers s' key ≡ o
        → ¬ AskedByOther s tx key
        → (state_of s' key ≡ none) × (value_of s' key ≡ none)
    gone none e alone =
        let absent : state_of s' key ≡ none = ground (arith, c'.owned key refl) in
        (absent, c'.stored key absent)
    gone (some []) e alone = absurd (c'.nonempty key e)
    gone (some (u ∷ us)) e alone =
        let (other, asked) = asker_is_other s tx u us key c e in absurd (alone (u, other, asked))

-- One critical section of the buffer. A prefetch is a call of its own, so a request that waited may
-- resume after its transaction has completed: the Boolean says whether the step may be such
-- a late one.
pub data Step : Bool → State → State → Type 0 where
  begins : (s : State) (tx : ℕ) (key : Bytes) → Step false s (begin_prefetch s tx key).0
  resumes :
      (s : State) (tx : ℕ) (key : Bytes) (n : ℕ) (receiver : Option ℕ) (changed : Bool)
      → contains bytes_discrete key (keys_of s tx) ≡ true
      → Step false s (resume_prefetch s key n receiver changed).0
  resumes_late :
      (s : State) (key : Bytes) (n : ℕ) (receiver : Option ℕ) (changed : Bool)
      → Step true s (resume_prefetch s key n receiver changed).0
  completes_fetch :
      (s : State) (key : Bytes) (found : Option Bytes) (n : ℕ)
      → Step false s (fetch_complete s key found n)
  fails_fetch : (s : State) (key : Bytes) (n : ℕ) → Step false s (fetch_failed s key n)
  upserts : (s : State) (key v : Bytes) → Step false s (upsert s key v)
  deletes : (s : State) (key : Bytes) → Step false s (delete s key)
  finishes : (s : State) (tx : ℕ) → Step false s (process_transaction_complete s tx)

-- Steps, and whether one of them is late.
pub data Reach : Bool → State → State → Type 0 where
  here : {s : State} → Reach false s s
  next : {late now : Bool} {s t u : State} → Reach late s t → Step now t u → Reach (now || late) s u

Step-IsLinked :
    {now late : Bool} {s t : State} → Step now s t → IsLinked late s → IsLinked (now || late) t
Step-IsLinked (begins s tx key) c = begin_prefetch-IsLinked s tx key c
Step-IsLinked (resumes s tx key n receiver changed h) c =
    (resume_prefetch_safe s tx key n receiver changed h c).0
Step-IsLinked (resumes_late s key n receiver changed) c =
    resume_prefetch-IsLinked s key n receiver changed c
Step-IsLinked (completes_fetch s key found n) c = fetch_complete-IsLinked s key found n c
Step-IsLinked (fails_fetch s key n) c = fetch_failed-IsLinked s key n c
Step-IsLinked (upserts s key v) c = upsert-IsLinked s key v c
Step-IsLinked (deletes s key) c = delete-IsLinked s key c
Step-IsLinked (finishes s tx) c = process_transaction_complete-IsLinked s tx c

-- Every interleaving of critical sections from a consistent buffer keeps the bookkeeping: a transaction
-- has asked for a key by one map exactly if it has by the other, a key that somebody asked for has a
-- state, no entry of askers is empty, and only a key with a state has a value. If no request resumed
-- late, when its transaction was no longer registered for the key, then also only keys that somebody
-- asked for have a state.
pub Reach-IsLinked : {late : Bool} {s t : State} → Reach late s t → IsConsistent s → IsLinked late t
Reach-IsLinked here c = c
Reach-IsLinked (next r st) c = Step-IsLinked st (Reach-IsLinked r c)
