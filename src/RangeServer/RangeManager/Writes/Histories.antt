-- ===== src/RangeServer/RangeManager/Writes/Histories.antt =====
-- Histories of a range, from the making of its manager on.
use atomix.Base.{
  ℕ, ◌≡◌, refl, sym, ◌⊎◌, inl, inr, Bool, true, false, not, ◌&&◌, Option, none, some, List, [], ◌∷◌,
  ◌++◌, Bytes, arith, Bool-cases, lookup,
}
use mathlib.Core.Path.{subst}
use atomix.Common.KeyRange.{KeyRange, includes}
use atomix.RangeServer.LockTable as LockTable
use atomix.RangeServer.LockTable.{is_currently_holding}
use atomix.RangeServer.PrefetchingBuffer as Buffer
use atomix.RangeServer.Lease.{LeaseState}
use atomix.RangeServer.RangeManager.{
  PrepareRequest, LoadedState, State, not_loaded, loading, loaded, unloaded, RangeInfo, claim_load,
  finish_load, load_inner, unload,
}
use atomix.RangeServer.RangeManager.Transactions.{
  Begun, goes_on, waits, fails, acquire_range_lock, begin_get, all_include, put_keys, begin_prepare,
  finish_prepare, Write, Outcome, abort, commit, loaded_and,
}
use atomix.RangeServer.RangeManager.Writes.{
  IsIn, AllWithin, AllWithin-append, PendingIn-insert, StateIn, abort-OutcomeIn, commit-OutcomeIn,
}

-- A range with its buffer, the prepares that have passed the checks, and the writes of the storage so
-- far, the last commit first.
pub record History : Type 0 where
  pub state : State
  pub buffer : Buffer.State
  pub admitted : List (ℕ × PrepareRequest)
  pub written : List Write

abbrev pub Among : ℕ × PrepareRequest → List (ℕ × PrepareRequest) → Type 0
Among x [] = ⊥
Among x (y ∷ ys) = (x ≡ y) ⊎ Among x ys

abbrev pub passes : Begun → Bool
passes goes_on = true
passes waits = true
passes (fails e) = false

abbrev pub after : History → Outcome → History
after h o = record h { state = o.state; buffer = o.buffer; written = o.written ++ h.written }

module _ (range : KeyRange) where
  -- The critical sections, in any order. The storage holds the same range of keys for this range at
  -- every load. The calls of the buffer that the manager does not make in these are any change of it.
  pub data Step : History → History → Type 0 where
    claims :
        (h : History) (channel : ℕ) → Step h (record h { state = (claim_load h.state channel).0 })
    loads :
        (h : History) (num_epochs : ℕ) (epoch : Option ℕ) (info : Option RangeInfo)
        (waited renewed synced heard : Bool)
        → ((i : RangeInfo) → info ≡ some i → i.key_range ≡ range)
        → Step h (record h {
          state =
              (finish_load h.state
                (load_inner num_epochs epoch info waited renewed synced)
                heard).0;
        })
    unloads : (h : History) → Step h (record h { state = unload h.state })
    renews :
        (h : History) (l : LoadedState) (lease : LeaseState)
        → h.state ≡ loaded l
        → Step h (record h { state = loaded (record l { lease = lease }) })
    prefetches : (h : History) (buffer : Buffer.State) → Step h (record h { buffer = buffer })
    gets :
        (h : History) (tx : ℕ) (key : Bytes) (sender requested now : ℕ)
        → Step h (record h { state = (begin_get h.state tx key sender requested now).0 })
    refuses :
        (h : History) (tx : ℕ) (prepare : PrepareRequest) (sender requested now : ℕ)
        → Step h (record h { state = (begin_prepare h.state tx prepare sender requested now).0 })
    admits :
        (h : History) (tx : ℕ) (prepare : PrepareRequest) (sender requested now : ℕ)
        → passes (begin_prepare h.state tx prepare sender requested now).1 ≡ true
        → Step h (record h {
          state = (begin_prepare h.state tx prepare sender requested now).0;
          admitted = (tx, prepare) ∷ h.admitted;
        })
    prepares :
        (h : History) (l : LoadedState) (tx : ℕ) (prepare : PrepareRequest) (logged : Bool)
        → h.state ≡ loaded l
        → Among (tx, prepare) h.admitted
        → Step h (record h { state = loaded (finish_prepare l tx prepare logged).0 })
    aborts :
        (h : History) (alive : ℕ → Bool) (tx now : ℕ) (logged : Bool)
        → Step h (after h (abort alive h.state h.buffer tx now logged))
    commits :
        (h : History) (stores alive : ℕ → Bool) (tx epoch vid now : ℕ) (logged : Bool)
        → Step h (after h (commit stores alive h.state h.buffer tx epoch vid now logged))

  pub data Reach : History → Type 0 where
    here :
        (buffer : Buffer.State)
        → Reach (record { state = not_loaded; buffer = buffer; admitted = []; written = [] })
    next : {h h' : History} → Reach h → Step h h' → Reach h'

  abbrev pub AdmittedIn : List (ℕ × PrepareRequest) → Type 0
  AdmittedIn [] = Unit {0}
  AdmittedIn (x ∷ xs) = IsIn range x.1 × AdmittedIn xs

  abbrev pub HistoryIn : History → Type 0
  HistoryIn h = StateIn range h.state × AdmittedIn h.admitted × AllWithin range h.written

  Among-IsIn :
      (x : ℕ × PrepareRequest) (xs : List (ℕ × PrepareRequest))
      → AdmittedIn xs
      → Among x xs
      → IsIn range x.1
  Among-IsIn x [] a m = absurd m
  Among-IsIn x (y ∷ ys) a (inl same) =
      subst (λ (z : ℕ × PrepareRequest). IsIn range z.1) (sym same) a.0
  Among-IsIn x (y ∷ ys) a (inr rest) = Among-IsIn x ys a.1 rest

  claim_load-StateIn :
      (s : State) (channel : ℕ) → StateIn range s → StateIn range (claim_load s channel).0
  unfolding claim_load
  claim_load-StateIn not_loaded channel i = tt
  claim_load-StateIn (loading c) channel i = tt
  claim_load-StateIn (loaded l) channel i = i
  claim_load-StateIn unloaded channel i = tt

  finish_load-StateIn :
      (s : State) (num_epochs : ℕ) (epoch : Option ℕ) (info : Option RangeInfo)
      (waited renewed synced heard : Bool)
      → ((i : RangeInfo) → info ≡ some i → i.key_range ≡ range)
      → StateIn range
          (finish_load s (load_inner num_epochs epoch info waited renewed synced) heard).0
  unfolding finish_load load_inner lookup
  finish_load-StateIn s n none info waited renewed synced true same = tt
  finish_load-StateIn s n none info waited renewed synced false same = tt
  finish_load-StateIn s n (some e) none waited renewed synced true same = tt
  finish_load-StateIn s n (some e) none waited renewed synced false same = tt
  finish_load-StateIn s n (some e) (some i) false renewed synced true same = tt
  finish_load-StateIn s n (some e) (some i) false renewed synced false same = tt
  finish_load-StateIn s n (some e) (some i) true false synced true same = tt
  finish_load-StateIn s n (some e) (some i) true false synced false same = tt
  finish_load-StateIn s n (some e) (some i) true true false true same = tt
  finish_load-StateIn s n (some e) (some i) true true false false same = tt
  finish_load-StateIn s n (some e) (some i) true true true heard same =
      (same i refl, λ tx p found. absurd (ground (arith, found)))

  acquire_range_lock-table :
      (l : LoadedState) (tx sender requested now : ℕ)
      → (acquire_range_lock l tx sender requested now).0
        ≡ record l { lock_table = (LockTable.acquire l.lock_table tx sender requested now).0 }
  unfolding acquire_range_lock
  acquire_range_lock-table l tx sender requested now = ground arith

  acquire-StateIn :
      (l : LoadedState) (tx sender requested now : ℕ)
      → StateIn range (loaded l)
      → StateIn range (loaded_and (acquire_range_lock l tx sender requested now)).0
  acquire-StateIn l tx sender requested now i =
      subst (λ (k : LoadedState). StateIn range (loaded k))
        (sym (acquire_range_lock-table l tx sender requested now)) i

  begin_get-StateIn :
      (s : State) (tx : ℕ) (key : Bytes) (sender requested now : ℕ)
      → StateIn range s
      → StateIn range (begin_get s tx key sender requested now).0
  unfolding begin_get
  begin_get-StateIn not_loaded tx key sender requested now i = tt
  begin_get-StateIn (loading c) tx key sender requested now i = tt
  begin_get-StateIn unloaded tx key sender requested now i = tt
  begin_get-StateIn (loaded l) tx key sender requested now i =
      elim (Bool-cases (includes l.key_range key)) [
        | inl inside ↦ rw inside (acquire-StateIn l tx sender requested now i)
        | inr outside ↦ rw outside i
      ]

  begin_prepare-StateIn :
      (s : State) (tx : ℕ) (prepare : PrepareRequest) (sender requested now : ℕ)
      → StateIn range s
      → StateIn range (begin_prepare s tx prepare sender requested now).0
        × (passes (begin_prepare s tx prepare sender requested now).1 ≡ true → IsIn range prepare)
  unfolding begin_prepare
  begin_prepare-StateIn not_loaded tx prepare sender requested now i =
      (tt, λ e. absurd (ground (arith, e)))
  begin_prepare-StateIn (loading c) tx prepare sender requested now i =
      (tt, λ e. absurd (ground (arith, e)))
  begin_prepare-StateIn unloaded tx prepare sender requested now i =
      (tt, λ e. absurd (ground (arith, e)))
  begin_prepare-StateIn (loaded l) tx prepare sender requested now i =
      elim (Bool-cases (all_include l.key_range (put_keys prepare.puts))) [
        | inr out ↦ rw out (i, λ e. absurd (ground (arith, e)))
        | inl puts ↦ elim (Bool-cases (all_include l.key_range prepare.deletes)) [
          | inr out ↦ rw (puts, out) (i, λ e. absurd (ground (arith, e)))
          | inl dels ↦
              let inside : IsIn range prepare =
                subst (λ (r : KeyRange). IsIn r prepare) i.0 (puts, dels) in
              elim (Bool-cases (prepare.has_reads && not (is_currently_holding l.lock_table tx))) [
                | inl lost ↦ rw (puts, dels, lost) (i, λ e. absurd (ground (arith, e)))
                | inr holds ↦
                    rw (puts, dels, holds)
                      (acquire-StateIn l tx sender requested now i, λ e. inside)
              ]
        ]
      ]

  finish_prepare-StateIn :
      (l : LoadedState) (tx : ℕ) (prepare : PrepareRequest) (logged : Bool)
      → IsIn range prepare
      → StateIn range (loaded l)
      → StateIn range (loaded (finish_prepare l tx prepare logged).0)
  unfolding finish_prepare
  finish_prepare-StateIn l tx prepare true inside i =
      (i.0, PendingIn-insert range l.pending_prepare_records tx prepare inside i.1)
  finish_prepare-StateIn l tx prepare false inside i = i

  Step-HistoryIn : {h h' : History} → Step h h' → HistoryIn h → HistoryIn h'
  unfolding unload
  Step-HistoryIn (claims h channel) i = (claim_load-StateIn h.state channel i.0, i.1, i.2)
  Step-HistoryIn (loads h n epoch info waited renewed synced heard same) i =
      (finish_load-StateIn h.state n epoch info waited renewed synced heard same, i.1, i.2)
  Step-HistoryIn (unloads h) i = (tt, i.1, i.2)
  Step-HistoryIn (renews h l lease e) i = (subst (StateIn range) e i.0, i.1, i.2)
  Step-HistoryIn (prefetches h buffer) i = i
  Step-HistoryIn (gets h tx key sender requested now) i =
      (begin_get-StateIn h.state tx key sender requested now i.0, i.1, i.2)
  Step-HistoryIn (refuses h tx prepare sender requested now) i =
      ((begin_prepare-StateIn h.state tx prepare sender requested now i.0).0, i.1, i.2)
  Step-HistoryIn (admits h tx prepare sender requested now passed) i =
      let b = begin_prepare-StateIn h.state tx prepare sender requested now i.0 in
      (b.0, (b.1 passed, i.1), i.2)
  Step-HistoryIn (prepares h l tx prepare logged e m) i = (
    finish_prepare-StateIn l tx prepare logged (Among-IsIn (tx, prepare) h.admitted i.1 m)
        (subst (StateIn range) e i.0),
    i.1,
    i.2,
  )
  Step-HistoryIn (aborts h alive tx now logged) i =
      let o = abort-OutcomeIn range alive h.state h.buffer tx now logged i.0 in
      (o.0, i.1, AllWithin-append range _ h.written o.1 i.2)
  Step-HistoryIn (commits h stores alive tx epoch vid now logged) i =
      let o = commit-OutcomeIn range stores alive h.state h.buffer tx epoch vid now logged i.0 in
      (o.0, i.1, AllWithin-append range _ h.written o.1 i.2)

  -- In every history of a range, from the making of its manager on, each write that the storage has
  -- carried out is of a key in the range, and so is each write of the prepares that are pending.
  pub Reach-HistoryIn : {h : History} → Reach h → HistoryIn h
  Reach-HistoryIn (here buffer) = (tt, tt, tt)
  Reach-HistoryIn (next r st) = Step-HistoryIn st (Reach-HistoryIn r)
