-- ===== src/RangeServer/RangeManager/Examples.antt =====
-- The range manager on a range of one-byte keys below 5.
use atomix.Base.{
  ℕ, zero, suc, ◌≡◌, ◌≤◌, refl, ◌⊎◌, Bool, true, false, none, some, List, [], ◌∷◌, ◌++◌, arith,
  bytes_lt, ℕ_discrete, lookup,
}
use atomix.Common.KeyRange.{KeyRange, includes}
use atomix.RangeServer.LockTable as LockTable
use atomix.RangeServer.PrefetchingBuffer as Buffer
use atomix.RangeServer.Lease.{load_lease, new_lower_bound}
use atomix.RangeServer.RangeManager.{
  Error, PrepareRequest, LoadedState, not_loaded, loading, loaded, unloaded, RangeInfo, LoadResult,
  already_loaded, claim_load, finish_load, load_inner, is_unloaded, unload,
}
use atomix.RangeServer.RangeManager.Transactions.{
  goes_on, begin_get, begin_prepare, acquire_range_lock, all_include, Write, writes_of, Ended,
  apply_writes, commit_record, commit,
}
use atomix.RangeServer.RangeManager.Locks.{HasLock, goes_on-HasLock}
use atomix.RangeServer.RangeManager.Loading as Loading
use atomix.RangeServer.RangeManager.Loading.{IsOnce, Reach-IsOnce, finish_load-unload, after_load}
use atomix.RangeServer.RangeManager.Commits.{commit-written, commit_completes, commit_retry_panics}
use atomix.RangeServer.RangeManager.Writes.Histories as Histories
use atomix.RangeServer.RangeManager.Writes.Histories.{HistoryIn, Reach-HistoryIn}

abbrev always : ℕ → Bool
always n = true

-- Only the first call succeeds.
abbrev once : ℕ → Bool
once zero = true
once (suc n) = false

abbrev below_five : KeyRange
below_five = record { lower_bound_inclusive = none; upper_bound_exclusive = some (5 ∷ []) }

abbrev prepare : PrepareRequest
prepare = record { has_reads = true; puts = (1 ∷ [], 10 ∷ []) ∷ []; deletes = (2 ∷ []) ∷ [] }

-- Transaction 7 holds the lock and has prepared.
abbrev held : LoadedState
held = record {
  key_range = below_five;
  leader_sequence_number = 1;
  lease = record { lower_bound = 4; upper_bound = 9; highest_known_epoch = 4 };
  lock_table = record {
    current_holder = some (record { transaction = 7; when_acquired = 1; when_requested = 1 });
    waiting_for_release = [];
    waiting_to_acquire = [];
  };
  pending_prepare_records = (7, prepare) ∷ [];
}

holds : LockTable.is_currently_holding held.lock_table 7 ≡ true
unfolding LockTable.is_currently_holding
holds = refl

found : lookup ℕ_discrete 7 held.pending_prepare_records ≡ some prepare
unfolding lookup ℕ_discrete
found = refl

released : (LockTable.release always held.lock_table 20).completed ≡ true
unfolding LockTable.release LockTable.notify_all LockTable.hand_over
released = refl

failed :
    (commit once always (loaded held) Buffer.new 7 6 0 20 true).ended
    ≡ Ended.err Error.storage_error
unfolding commit commit_record apply_writes writes_of lookup ℕ_discrete
    LockTable.is_currently_holding
failed = refl

commit-written_example :
    let o = commit once always (loaded held) Buffer.new 7 6 0 20 true in
    (rest : List Write) × (writes_of (record { epoch = 6; version_counter = 0 }) prepare
      ≡ o.written ++ rest)
    × ((o.ended ≡ Ended.err Error.storage_error) ⊎ (rest ≡ []))
commit-written_example = commit-written held 7 6 0 20 prepare holds found once always Buffer.new

commit_completes_example :
    let o = commit always always (loaded held) Buffer.new 7 6 0 20 true in
    (o.ended ≡ Ended.ok)
    × (o.written ≡ writes_of (record { epoch = 6; version_counter = 0 }) prepare)
    × ((l' : LoadedState) × (o.state ≡ loaded l')
        × (lookup ℕ_discrete 7 l'.pending_prepare_records ≡ none)
        × (6 ≤ l'.lease.highest_known_epoch)
        × (l'.lock_table ≡ (LockTable.release always held.lock_table 20).state))
commit_completes_example =
    commit_completes held 7 6 0 20 prepare holds found always always Buffer.new (λ j. refl) released

commit_retry_panics_example :
    let o = commit once always (loaded held) Buffer.new 7 6 0 20 true in
    let retry = commit always always o.state o.buffer 7 6 0 25 true in
    (retry.ended ≡ Ended.panics)
    × (retry.written ≡ [])
    × ((l' : LoadedState) × (retry.state ≡ loaded l') × (l'.lock_table ≡ held.lock_table))
commit_retry_panics_example =
    commit_retry_panics held 7 6 0 20 prepare holds found once always always always Buffer.new
      (commit once always (loaded held) Buffer.new 7 6 0 20 true).buffer 6 0 25 failed

goes_on-HasLock_example :
    let got = begin_get (loaded held) 7 (1 ∷ []) 3 21 22 in
    let prepared = begin_prepare (loaded held) 7 prepare 3 21 22 in
    (got.1 ≡ goes_on → HasLock 7 got.0)
    × (prepared.1 ≡ goes_on
        → HasLock 7 prepared.0
          × (prepare.has_reads ≡ true → HasLock 7 (loaded held) × (prepared.0 ≡ loaded held)))
goes_on-HasLock_example = goes_on-HasLock (loaded held) 7 (1 ∷ []) prepare 3 21 22

-- The range is loaded after the lease of its last leader, up to 3.
abbrev info : RangeInfo
info = record { key_range = below_five; leader_sequence_number = 1; lease_upper_bound = 3 }

abbrev fresh : LoadedState
fresh = record held { lock_table = LockTable.new; pending_prepare_records = [] }

load_test : load_inner 5 (some 3) (some info) true true true ≡ LoadResult.ok fresh
unfolding load_inner load_lease new_lower_bound
load_test = refl

finish_load-unload_test :
    let s' = (finish_load (unload (loading 0)) (LoadResult.ok fresh) false).0 in
    (is_unloaded (unload (loading 0)) ≡ true)
    × (claim_load s' 1 ≡ (loaded fresh, already_loaded))
    × (s' ≡ (finish_load (loading 0) (LoadResult.ok fresh) false).0)
finish_load-unload_test = finish_load-unload (loading 0) (LoadResult.ok fresh) false 1

-- A load, and an `unload` while it runs.
abbrev unloaded_early : Loading.Loads
unloaded_early = record { state = unloaded; running = 1; started = 1 }

loading_run : Loading.Reach unloaded_early
unfolding claim_load unload
loading_run =
    Loading.next (Loading.next Loading.here (Loading.claims Loading.start 0 refl))
      (Loading.unloads (record { state = loading 0; running = 1; started = 1 }))

Reach-IsOnce_example : IsOnce unloaded_early
Reach-IsOnce_example = Reach-IsOnce loading_run

-- A load and a prepare by transaction 7.
abbrev blind : PrepareRequest
blind = record prepare { has_reads = false }

abbrev at_start : Histories.History
at_start = record { state = not_loaded; buffer = Buffer.new; admitted = []; written = [] }

abbrev prepared_history : Histories.History
prepared_history = record at_start {
  state = loaded (record fresh {
    lock_table = record {
      current_holder = some (record { transaction = 7; when_acquired = 1; when_requested = 1 });
      waiting_for_release = [];
      waiting_to_acquire = [];
    };
  });
  admitted = (7, blind) ∷ [];
}

history : Histories.Reach below_five prepared_history
unfolding claim_load finish_load load_inner load_lease new_lower_bound begin_prepare
    acquire_range_lock all_include includes bytes_lt LockTable.acquire LockTable.acquire_held
    LockTable.new
history =
    Histories.next
      (Histories.next (Histories.next (Histories.here Buffer.new) (Histories.claims at_start 0)) (
        Histories.loads (record at_start { state = loading 0 }) 5 (some 3) (some info) true true
          true false (λ i e. ground (arith, e))))
      (Histories.admits (record at_start { state = loaded fresh }) 7 blind 3 1 2 refl)

Reach-HistoryIn_example : HistoryIn below_five prepared_history
Reach-HistoryIn_example = Reach-HistoryIn below_five history
