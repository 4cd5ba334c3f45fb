-- ===== src/RangeServer/RangeManager/Writes.antt =====
-- Writes of the storage that lie in the range, and calls that make no others.
pub mod Histories
use atomix.Base.{
  ℕ, suc, zero, ◌≡◌, ◌≢◌, ◌≤◌, refl, sym, ◌∙◌, ap, ◌⊎◌, inl, inr, Bool, true, false, not, ◌&&◌,
  Option, none, some, List, [], ◌∷◌, ◌++◌, map, Bytes, if◌then◌else◌, ℕ_discrete, lookup, insert,
  remove, lookup-remove, lookup-insert, arith, Bool-cases, Option-cases, ite,
}
use mathlib.Core.Path.{subst}
use atomix.Common.KeyRange.{KeyRange, includes}
use atomix.RangeServer.LockTable as LockTable
use atomix.RangeServer.LockTable.{release, is_currently_holding}
use atomix.RangeServer.PrefetchingBuffer as Buffer
use atomix.RangeServer.Lease.{LeaseState}
use atomix.RangeServer.RangeManager.{
  Error, PrepareRequest, LoadedState, State, not_loaded, loading, loaded, unloaded, RangeInfo,
  LoadResult, claim_load, finish_load, load_inner, unload,
}
use atomix.RangeServer.RangeManager.Transactions.{
  Begun, goes_on, waits, fails, acquire_range_lock, begin_get, all_include, put_keys, begin_prepare,
  finish_prepare, KeyVersion, Write, upserts, deletes, writes_of, apply_writes, Outcome,
  end_transaction, abort, commit,
}
use atomix.RangeServer.RangeManager.Commits.{
  apply_writes_prefix, taken, version, applied, commit-stored, commit-failed,
}

module _ (range : KeyRange) where
  abbrev pub IsIn : PrepareRequest → Type 0
  IsIn prepare =
      (all_include range (put_keys prepare.puts) ≡ true)
      × (all_include range prepare.deletes ≡ true)

  abbrev pub IsWithin : Write → Type 0
  IsWithin (upserts key val v) = includes range key ≡ true
  IsWithin (deletes key v) = includes range key ≡ true

  abbrev pub AllWithin : List Write → Type 0
  AllWithin [] = Unit {0}
  AllWithin (w ∷ ws) = IsWithin w × AllWithin ws

  pub AllWithin-append : (xs ys : List Write) → AllWithin xs → AllWithin ys → AllWithin (xs ++ ys)
  AllWithin-append [] ys a b = b
  AllWithin-append (x ∷ xs) ys a b = (a.0, AllWithin-append xs ys a.1 b)

  of_AllWithin-append : (xs ys : List Write) → AllWithin (xs ++ ys) → AllWithin xs
  of_AllWithin-append [] ys a = tt
  of_AllWithin-append (x ∷ xs) ys a = (a.0, of_AllWithin-append xs ys a.1)

  puts-AllWithin :
      (v : KeyVersion) (puts : List (Bytes × Bytes))
      → all_include range (put_keys puts) ≡ true
      → AllWithin (map (λ (p : Bytes × Bytes). upserts p.0 p.1 v) puts)
  unfolding all_include
  puts-AllWithin v [] h = tt
  puts-AllWithin v (p ∷ puts) h = (ground (arith, h), puts-AllWithin v puts (ground (arith, h)))

  deletes-AllWithin :
      (v : KeyVersion) (keys : List Bytes)
      → all_include range keys ≡ true
      → AllWithin (map (λ key. deletes key v) keys)
  unfolding all_include
  deletes-AllWithin v [] h = tt
  deletes-AllWithin v (key ∷ keys) h =
      (ground (arith, h), deletes-AllWithin v keys (ground (arith, h)))

  writes_of-AllWithin :
      (v : KeyVersion) (prepare : PrepareRequest) → IsIn prepare → AllWithin (writes_of v prepare)
  unfolding writes_of
  writes_of-AllWithin v prepare h =
      AllWithin-append (map (λ (p : Bytes × Bytes). upserts p.0 p.1 v) prepare.puts)
        (map (λ key. deletes key v) prepare.deletes) (puts-AllWithin v prepare.puts h.0)
        (deletes-AllWithin v prepare.deletes h.1)

  abbrev pub PendingIn : List (ℕ × PrepareRequest) → Type 0
  PendingIn m = (tx : ℕ) (p : PrepareRequest) → lookup ℕ_discrete tx m ≡ some p → IsIn p

  abbrev pub StateIn : State → Type 0
  StateIn (loaded l) = (l.key_range ≡ range) × PendingIn l.pending_prepare_records
  StateIn not_loaded = Unit {0}
  StateIn (loading c) = Unit {0}
  StateIn unloaded = Unit {0}

  pub PendingIn-insert :
      (m : List (ℕ × PrepareRequest)) (tx : ℕ) (p : PrepareRequest)
      → IsIn p
      → PendingIn m
      → PendingIn (insert ℕ_discrete tx p m)
  PendingIn-insert m tx p new old tx' p' e = elim (ℕ_discrete tx' tx) [
    | yes same ↦
        let here : some p ≡ some p' =
          sym (lookup-insert ℕ_discrete tx' tx p m ∙ ground (arith, same)) ∙ e in
        let q : p ≡ p' = ground (arith, here) in subst IsIn q new
    | no other ↦ old tx' p' (sym (lookup-insert ℕ_discrete tx' tx p m ∙ ground (arith, other)) ∙ e)
  ]

  PendingIn-remove :
      (m : List (ℕ × PrepareRequest)) (tx : ℕ) → PendingIn m → PendingIn (remove ℕ_discrete tx m)
  PendingIn-remove m tx old tx' p' e = elim (ℕ_discrete tx' tx) [
    | yes same ↦ absurd (ground (arith, sym (lookup-remove ℕ_discrete tx' tx m) ∙ e, same))
    | no other ↦ old tx' p' (sym (lookup-remove ℕ_discrete tx' tx m ∙ ground (arith, other)) ∙ e)
  ]

  abbrev pub OutcomeIn : Outcome → Type 0
  OutcomeIn o = StateIn o.state × AllWithin o.written

  end_transaction-OutcomeIn :
      (alive : ℕ → Bool) (l : LoadedState) (buffer : Buffer.State) (tx now : ℕ) (ws : List Write)
      → StateIn (loaded l)
      → AllWithin ws
      → OutcomeIn (end_transaction alive l buffer tx now ws)
  unfolding end_transaction
  end_transaction-OutcomeIn alive l buffer tx now ws s w =
      elim (Bool-cases (release alive l.lock_table now).completed) [
        | inl done ↦ rw done (s, w)
        | inr stuck ↦ rw stuck (s, w)
      ]

  pub abort-OutcomeIn :
      (alive : ℕ → Bool) (s : State) (buffer : Buffer.State) (tx now : ℕ) (logged : Bool)
      → StateIn s
      → OutcomeIn (abort alive s buffer tx now logged)
  unfolding abort
  abort-OutcomeIn alive not_loaded buffer tx now logged i = (i, tt)
  abort-OutcomeIn alive (loading c) buffer tx now logged i = (i, tt)
  abort-OutcomeIn alive unloaded buffer tx now logged i = (i, tt)
  abort-OutcomeIn alive (loaded l) buffer tx now logged i =
      elim (Bool-cases (is_currently_holding l.lock_table tx)) [
        | inr free ↦ rw free (i, tt)
        | inl holds ↦ elim (Bool-cases logged) [
          | inl good ↦ rw (holds, good) (end_transaction-OutcomeIn alive l buffer tx now [] i tt)
          | inr bad ↦ rw (holds, bad) (i, tt)
        ]
      ]

  holder-OutcomeIn :
      (stores alive : ℕ → Bool) (l : LoadedState) (buffer : Buffer.State) (tx epoch vid now : ℕ)
      (p : PrepareRequest) (holds : is_currently_holding l.lock_table tx ≡ true)
      (found : lookup ℕ_discrete tx l.pending_prepare_records ≡ some p)
      → StateIn (loaded l)
      → OutcomeIn (commit stores alive (loaded l) buffer tx epoch vid now true)
  holder-OutcomeIn stores alive l buffer tx epoch vid now p holds found i =
      let v = version l tx epoch vid now p holds found in
      let (rest, split, _) = apply_writes_prefix stores 0 buffer (writes_of v p) in
      let within : AllWithin (applied l tx epoch vid now p holds found stores buffer).1 =
        of_AllWithin-append (apply_writes stores 0 buffer (writes_of v p)).1 rest
          (subst AllWithin split (writes_of-AllWithin v p (i.1 tx p found))) in
      let kept : StateIn (loaded (taken l tx epoch vid now p holds found)) =
        (i.0, PendingIn-remove l.pending_prepare_records tx i.1) in
      elim (Bool-cases (applied l tx epoch vid now p holds found stores buffer).2) [
        | inl good ↦
            subst OutcomeIn
              (sym (commit-stored l tx epoch vid now p holds found stores alive buffer good))
              (end_transaction-OutcomeIn alive (taken l tx epoch vid now p holds found)
                (applied l tx epoch vid now p holds found stores buffer).0 tx now
                (applied l tx epoch vid now p holds found stores buffer).1 kept within)
        | inr bad ↦
            subst OutcomeIn
              (sym (commit-failed l tx epoch vid now p holds found stores alive buffer bad))
              (kept, within)
      ]

  pub commit-OutcomeIn :
      (stores alive : ℕ → Bool) (s : State) (buffer : Buffer.State) (tx epoch vid now : ℕ)
      (logged : Bool)
      → StateIn s
      → OutcomeIn (commit stores alive s buffer tx epoch vid now logged)
  unfolding commit
  commit-OutcomeIn stores alive not_loaded buffer tx epoch vid now logged i = (i, tt)
  commit-OutcomeIn stores alive (loading c) buffer tx epoch vid now logged i = (i, tt)
  commit-OutcomeIn stores alive unloaded buffer tx epoch vid now logged i = (i, tt)
  commit-OutcomeIn stores alive (loaded l) buffer tx epoch vid now false i =
      elim (Bool-cases (is_currently_holding l.lock_table tx)) [
        | inr free ↦ rw free (i, tt)
        | inl holds ↦ rw holds (i, tt)
      ]
  commit-OutcomeIn stores alive (loaded l) buffer tx epoch vid now true i =
      elim (Bool-cases (is_currently_holding l.lock_table tx)) [
        | inr free ↦ rw free (i, tt)
        | inl holds ↦ elim (Option-cases (lookup ℕ_discrete tx l.pending_prepare_records)) [
          | inl missing ↦ rw (holds, missing) (i, tt)
          | inr (p, found) ↦ holder-OutcomeIn stores alive l buffer tx epoch vid now p holds found i
        ]
      ]
