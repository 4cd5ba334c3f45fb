-- ===== src/RangeServer/RangeManager/Locks.antt =====
-- What a call holds when it goes on.
use atomix.Base.{ℕ, ◌≡◌, refl, sym, ◌∙◌, ap, true, not, ◌&&◌, Bytes, arith, Bool-cases, inl, inr}
use mathlib.Core.Path.{subst}
use atomix.Common.KeyRange.{includes}
use atomix.RangeServer.LockTable.{sent, acquire, is_currently_holding}
use atomix.RangeServer.LockTable.Order.{acquire-sent_iff, acquire-holder}
use atomix.RangeServer.RangeManager.{
  PrepareRequest, LoadedState, State, not_loaded, loading, loaded, unloaded,
}
use atomix.RangeServer.RangeManager.Transactions.{
  Begun, goes_on, acquire_range_lock, begin_get, all_include, put_keys, begin_prepare, loaded_and,
}

-- The call has the lock of a loaded range.
abbrev pub HasLock : ℕ → State → Type 0
HasLock tx s = (l : LoadedState) × (s ≡ loaded l) × (is_currently_holding l.lock_table tx ≡ true)

acquire_range_lock-sent :
    (l : LoadedState) (tx sender requested now : ℕ)
    → (acquire_range_lock l tx sender requested now).1 ≡ goes_on
    → ((acquire l.lock_table tx sender requested now).1 ≡ sent)
      × ((acquire_range_lock l tx sender requested now).0
          ≡ record l { lock_table = (acquire l.lock_table tx sender requested now).0 })
unfolding acquire_range_lock
acquire_range_lock-sent l tx sender requested now e = (ground (arith, e), ground arith)

acquire-HasLock :
    (l : LoadedState) (tx sender requested now : ℕ)
    → (acquire_range_lock l tx sender requested now).1 ≡ goes_on
    → HasLock tx (loaded (acquire_range_lock l tx sender requested now).0)
acquire-HasLock l tx sender requested now e =
    let w = acquire_range_lock-sent l tx sender requested now e in
    (
      record l { lock_table = (acquire l.lock_table tx sender requested now).0 },
      ap loaded w.1,
      (acquire-sent_iff l.lock_table tx sender requested now).0 w.0,
    )

acquire_range_lock-holder :
    (l : LoadedState) (tx sender requested now : ℕ)
    → is_currently_holding l.lock_table tx ≡ true
    → acquire_range_lock l tx sender requested now ≡ (l, goes_on)
unfolding acquire_range_lock
acquire_range_lock-holder l tx sender requested now h =
    ground (arith, acquire-holder l.lock_table tx sender requested now h)

begin_get-HasLock :
    (s : State) (tx : ℕ) (key : Bytes) (sender requested now : ℕ)
    → (begin_get s tx key sender requested now).1 ≡ goes_on
    → HasLock tx (begin_get s tx key sender requested now).0
unfolding begin_get
begin_get-HasLock not_loaded tx key sender requested now e = absurd (ground (arith, e))
begin_get-HasLock (loading c) tx key sender requested now e = absurd (ground (arith, e))
begin_get-HasLock unloaded tx key sender requested now e = absurd (ground (arith, e))
begin_get-HasLock (loaded l) tx key sender requested now e =
    elim (Bool-cases (includes l.key_range key)) [
      | inl inside ↦
          let same : begin_get (loaded l) tx key sender requested now
              ≡ loaded_and (acquire_range_lock l tx sender requested now) =
            rw inside in
          subst (λ (r : State × Begun). HasLock tx r.0) (sym same)
            (acquire-HasLock l tx sender requested now
              (sym (ap (λ (r : State × Begun). r.1) same) ∙ e))
      | inr outside ↦ absurd (ground (arith, e, outside))
    ]

begin_prepare-cases :
    (s : State) (tx : ℕ) (prepare : PrepareRequest) (sender requested now : ℕ)
    → (begin_prepare s tx prepare sender requested now).1 ≡ goes_on
    → HasLock tx (begin_prepare s tx prepare sender requested now).0
      × (prepare.has_reads ≡ true
          → HasLock tx s × ((begin_prepare s tx prepare sender requested now).0 ≡ s))
unfolding begin_prepare
begin_prepare-cases not_loaded tx prepare sender requested now e = absurd (ground (arith, e))
begin_prepare-cases (loading c) tx prepare sender requested now e = absurd (ground (arith, e))
begin_prepare-cases unloaded tx prepare sender requested now e = absurd (ground (arith, e))
begin_prepare-cases (loaded l) tx prepare sender requested now e =
    elim (Bool-cases (all_include l.key_range (put_keys prepare.puts))) [
      | inr out ↦ absurd (ground (arith, e, out))
      | inl puts ↦ elim (Bool-cases (all_include l.key_range prepare.deletes)) [
        | inr out ↦ absurd (ground (arith, e, puts, out))
        | inl dels ↦
            elim (Bool-cases (prepare.has_reads && not (is_currently_holding l.lock_table tx))) [
              | inl lost ↦ absurd (ground (arith, e, puts, dels, lost))
              | inr kept ↦
                  let same : begin_prepare (loaded l) tx prepare sender requested now
                      ≡ loaded_and (acquire_range_lock l tx sender requested now) =
                    rw (puts, dels, kept) in
                  (
                    subst (λ (r : State × Begun). HasLock tx r.0) (sym same)
                        (acquire-HasLock l tx sender requested now
                          (sym (ap (λ (r : State × Begun). r.1) same) ∙ e)),
                    λ reads.
                        let had : is_currently_holding l.lock_table tx ≡ true =
                          ground (arith, reads, kept) in
                        (
                          (l, refl, had),
                          ap (λ (r : State × Begun). r.0) same
                              ∙ ap (λ (r : LoadedState × Begun). (loaded_and r).0)
                                  (acquire_range_lock-holder l tx sender requested now had),
                        ),
                  )
            ]
      ]
    ]

-- A `get` or a `prepare` that goes on without waiting has the lock of the loaded range. If the prepare
-- says that the transaction has reads, it had the lock before, and the range is unchanged: a lock that
-- was lost is not taken again.
pub goes_on-HasLock :
    (s : State) (tx : ℕ) (key : Bytes) (prepare : PrepareRequest) (sender requested now : ℕ)
    → let got = begin_get s tx key sender requested now in
      let prepared = begin_prepare s tx prepare sender requested now in
      (got.1 ≡ goes_on → HasLock tx got.0)
      × (prepared.1 ≡ goes_on
          → HasLock tx prepared.0 × (prepare.has_reads ≡ true → HasLock tx s × (prepared.0 ≡ s)))
goes_on-HasLock s tx key prepare sender requested now = (
  begin_get-HasLock s tx key sender requested now,
  begin_prepare-cases s tx prepare sender requested now,
)
