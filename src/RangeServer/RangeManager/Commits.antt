-- ===== src/RangeServer/RangeManager/Commits.antt =====
-- What a commit writes, and what a retry of it does.
use atomix.Base.{
  ℕ, suc, ◌≡◌, ◌≢◌, ◌≤◌, refl, sym, ◌∙◌, ap, ◌⊎◌, inl, inr, Bool, true, false, none, some, List, [],
  ◌∷◌, ◌++◌, ℕ_discrete, lookup, remove, lookup-remove, arith, Bool-cases,
}
use mathlib.Core.Path.{subst}
use atomix.RangeServer.LockTable as LockTable
use atomix.RangeServer.LockTable.{release, is_currently_holding}
use atomix.RangeServer.PrefetchingBuffer as Buffer
use atomix.RangeServer.PrefetchingBuffer.{process_transaction_complete}
use atomix.RangeServer.Lease.{maybe_update}
use atomix.RangeServer.RangeManager.{storage_error, PrepareRequest, LoadedState, State, loaded}
use atomix.RangeServer.RangeManager.Transactions.{
  KeyVersion, Write, writes_of, buffer_write, apply_writes, ok, panics, err, Outcome,
  end_transaction, commit_record, commit,
}

-- The writes that were stored come first, and those not stored after them.
pub apply_writes_prefix :
    (stores : ℕ → Bool) (i : ℕ) (buffer : Buffer.State) (ws : List Write)
    → (rest : List Write) × (ws ≡ (apply_writes stores i buffer ws).1 ++ rest)
      × ((apply_writes stores i buffer ws).2 ≡ true → rest ≡ [])
unfolding apply_writes
apply_writes_prefix stores i buffer [] = ([], refl, λ e. refl)
apply_writes_prefix stores i buffer (w ∷ ws) = elim (Bool-cases (stores i)) [
  | inl good ↦
      let (rest, e, all) = apply_writes_prefix stores (suc i) (buffer_write buffer w) ws in
      (rest, rw good (ap (λ k. w ∷ k) e), rw good all)
  | inr bad ↦ (w ∷ ws, rw bad refl, rw bad (λ e. absurd (ground (arith, e))))
]

apply_writes_all :
    (stores : ℕ → Bool) (i : ℕ) (buffer : Buffer.State) (ws : List Write)
    → ((j : ℕ) → stores j ≡ true)
    → ((apply_writes stores i buffer ws).1 ≡ ws) × ((apply_writes stores i buffer ws).2 ≡ true)
unfolding apply_writes
apply_writes_all stores i buffer [] good = (refl, refl)
apply_writes_all stores i buffer (w ∷ ws) good =
    let ih = apply_writes_all stores (suc i) (buffer_write buffer w) ws good in
    (rw (good i) (ap (λ k. w ∷ k) ih.0), rw (good i) ih.1)

-- A logged commit of the holder with no pending prepare.
abbrev Panics : LockTable.State → Outcome → Type 0
Panics table o =
    (o.ended ≡ panics)
    × (o.written ≡ [])
    × ((l : LoadedState) × (o.state ≡ loaded l) × (l.lock_table ≡ table))

commit_without_record :
    (stores alive : ℕ → Bool) (l : LoadedState) (buffer : Buffer.State) (tx epoch vid now : ℕ)
    → is_currently_holding l.lock_table tx ≡ true
    → lookup ℕ_discrete tx l.pending_prepare_records ≡ none
    → Panics l.lock_table (commit stores alive (loaded l) buffer tx epoch vid now true)
unfolding commit
commit_without_record stores alive l buffer tx epoch vid now holds missing = (
  ground (arith, holds, missing),
  ground (arith, holds, missing),
  (
    record l {
      lease = record l.lease {
        highest_known_epoch = maybe_update l.lease.highest_known_epoch epoch;
      };
    },
    ground (arith, holds, missing),
    refl,
  ),
)

module _ (l : LoadedState) (tx epoch vid now : ℕ) (prepare : PrepareRequest)
    (holds : is_currently_holding l.lock_table tx ≡ true)
    (found : lookup ℕ_discrete tx l.pending_prepare_records ≡ some prepare) where
  abbrev pub version : KeyVersion
  version = record { epoch = epoch; version_counter = vid }

  -- The state of the range when the commit has taken the record out.
  abbrev pub taken : LoadedState
  taken = record l {
    lease = record l.lease { highest_known_epoch = maybe_update l.lease.highest_known_epoch epoch };
    pending_prepare_records = remove ℕ_discrete tx l.pending_prepare_records;
  }

  commit-commit_record :
      (stores alive : ℕ → Bool) (buffer : Buffer.State)
      → commit stores alive (loaded l) buffer tx epoch vid now true
        ≡ commit_record stores alive taken buffer tx now version prepare
  unfolding commit
  commit-commit_record stores alive buffer = rw (commit, holds, found)

  -- The writes of a commit that gets as far as the storage.
  abbrev pub applied : (ℕ → Bool) → Buffer.State → Buffer.State × List Write × Bool
  applied stores buffer = apply_writes stores 0 buffer (writes_of version prepare)

  pub commit-stored :
      (stores alive : ℕ → Bool) (buffer : Buffer.State)
      → (applied stores buffer).2 ≡ true
      → commit stores alive (loaded l) buffer tx epoch vid now true
        ≡ end_transaction alive taken (applied stores buffer).0 tx now (applied stores buffer).1
  unfolding commit_record
  commit-stored stores alive buffer all =
      commit-commit_record stores alive buffer ∙ ground (arith, all)

  pub commit-failed :
      (stores alive : ℕ → Bool) (buffer : Buffer.State)
      → (applied stores buffer).2 ≡ false
      → commit stores alive (loaded l) buffer tx epoch vid now true ≡ record {
        state = loaded taken;
        buffer = (applied stores buffer).0;
        written = (applied stores buffer).1;
        ended = err storage_error;
      }
  unfolding commit_record
  commit-failed stores alive buffer all =
      commit-commit_record stores alive buffer ∙ ground (arith, all)

  end_transaction-written :
      (alive : ℕ → Bool) (k : LoadedState) (buffer : Buffer.State) (ws : List Write)
      → ((end_transaction alive k buffer tx now ws).written ≡ ws)
        × ((end_transaction alive k buffer tx now ws).ended ≢ err storage_error)
  unfolding end_transaction
  end_transaction-written alive k buffer ws =
      elim (Bool-cases (release alive k.lock_table now).completed) [
        | inl done ↦ ground (arith, done)
        | inr stuck ↦ ground (arith, stuck)
      ]

  -- A commit of the holder of the lock whose prepare is pending and whose entry is in the log: what the
  -- storage has carried out is a first part of the writes of the prepare, in their order and at the
  -- version of the commit, and it is all of them unless the commit ends with a storage error.
  pub commit-written :
      (stores alive : ℕ → Bool) (buffer : Buffer.State)
      → let o = commit stores alive (loaded l) buffer tx epoch vid now true in
        (rest : List Write) × (writes_of version prepare ≡ o.written ++ rest)
        × ((o.ended ≡ err storage_error) ⊎ (rest ≡ []))
  commit-written stores alive buffer =
      let (rest, e, all) = apply_writes_prefix stores 0 buffer (writes_of version prepare) in
      elim (Bool-cases (applied stores buffer).2) [
        | inl good ↦
            let o = commit-stored stores alive buffer good in
            let w =
              end_transaction-written alive taken (applied stores buffer).0
                (applied stores buffer).1 in
            (
              rest,
              e
                  ∙ ap (λ (k : List Write). k ++ rest)
                      (sym (ap (λ (k : Outcome). k.written) o ∙ w.0)),
              inr (all good),
            )
        | inr bad ↦
            let o = commit-failed stores alive buffer bad in
            (
              rest,
              e ∙ ap (λ (k : List Write). k ++ rest) (sym (ap (λ (k : Outcome). k.written) o)),
              inl (ap (λ (k : Outcome). k.ended) o),
            )
      ]

  -- A commit of the holder of the lock whose prepare is pending and whose entry is in the log: if the
  -- storage carries out every write and the release of the lock completes, the commit returns `Ok`: it has written all, the prepare is no longer pending, the highest known epoch is not below
  -- that of the commit, and the lock is released.
  pub commit_completes :
      (stores alive : ℕ → Bool) (buffer : Buffer.State)
      → ((j : ℕ) → stores j ≡ true)
      → (release alive l.lock_table now).completed ≡ true
      → let o = commit stores alive (loaded l) buffer tx epoch vid now true in
        (o.ended ≡ ok)
        × (o.written ≡ writes_of version prepare)
        × ((l' : LoadedState) × (o.state ≡ loaded l')
            × (lookup ℕ_discrete tx l'.pending_prepare_records ≡ none)
            × (epoch ≤ l'.lease.highest_known_epoch)
            × (l'.lock_table ≡ (release alive l.lock_table now).state))
  unfolding end_transaction maybe_update
  commit_completes stores alive buffer good done =
      let a = apply_writes_all stores 0 buffer (writes_of version prepare) good in
      let o = commit-stored stores alive buffer a.1 in
      (
        ap (λ (k : Outcome). k.ended) o ∙ ground (arith, done),
        ap (λ (k : Outcome). k.written) o
            ∙ (end_transaction-written alive taken (applied stores buffer).0
                (applied stores buffer).1).0
            ∙ a.0,
        (
          record taken { lock_table = (release alive l.lock_table now).state },
          ap (λ (k : Outcome). k.state) o ∙ ground (arith, done),
          lookup-remove ℕ_discrete tx tx l.pending_prepare_records ∙ ground arith,
          ground arith,
          refl,
        ),
      )

  pub failed-state :
      (stores alive : ℕ → Bool) (buffer : Buffer.State)
      → (commit stores alive (loaded l) buffer tx epoch vid now true).ended ≡ err storage_error
      → (commit stores alive (loaded l) buffer tx epoch vid now true).state ≡ loaded taken
  failed-state stores alive buffer failed = elim (Bool-cases (applied stores buffer).2) [
    | inl good ↦ absurd (
        (end_transaction-written alive taken (applied stores buffer).0 (applied stores buffer).1).1
          (sym (ap (λ (k : Outcome). k.ended) (commit-stored stores alive buffer good)) ∙ failed))
    | inr bad ↦ ap (λ (k : Outcome). k.state) (commit-failed stores alive buffer bad)
  ]

  -- A commit of the holder of the lock whose prepare is pending and whose entry is in the log, and that
  -- ends with an error of the storage, keeps the lock. Whatever the storage then does, a retry whose entry
  -- is in the log panics, writes nothing and keeps the lock as well.
  pub commit_retry_panics :
      (stores alive stores' alive' : ℕ → Bool) (buffer buffer' : Buffer.State)
      (epoch' vid' now' : ℕ)
      → (commit stores alive (loaded l) buffer tx epoch vid now true).ended ≡ err storage_error
      → let o = commit stores alive (loaded l) buffer tx epoch vid now true in
        let retry = commit stores' alive' o.state buffer' tx epoch' vid' now' true in
        (retry.ended ≡ panics)
        × (retry.written ≡ [])
        × ((l' : LoadedState) × (retry.state ≡ loaded l') × (l'.lock_table ≡ l.lock_table))
  commit_retry_panics stores alive stores' alive' buffer buffer' epoch' vid' now' failed =
      subst
        (λ (s : State).
          Panics l.lock_table (commit stores' alive' s buffer' tx epoch' vid' now' true))
        (sym (failed-state stores alive buffer failed))
        (commit_without_record stores' alive' taken buffer' tx epoch' vid' now' holds
          (lookup-remove ℕ_discrete tx tx l.pending_prepare_records ∙ ground arith))
