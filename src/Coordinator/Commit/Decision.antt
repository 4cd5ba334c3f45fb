-- ===== src/Coordinator/Commit/Decision.antt =====
-- When a commit succeeds, and what a failed one leaves.
use atomix.Base.{
  ℕ, ◌≡◌, ◌≢◌, ◌≤◌, refl, ap, true, ◌&&◌, Option, none, some, List, [], ◌∷◌, ◌++◌, arith, ltb,
  if◌then◌else◌,
}
use atomix.Coordinator.Store
use atomix.Coordinator.Store.{Status, commit_transaction, abort_transaction, maybe_get_commit_epoch}
use atomix.Routing.{FullRangeId}
use atomix.Coordinator.Transaction.{
  Request, Run, State, running, preparing, committed, aborted, Transaction, ok, err, other,
  transaction_aborted, transaction_no_longer_running, check_still_running, to_participants,
  commit_request, record_abort, after_abort, returns, abort,
}
use atomix.Coordinator.Commit.{
  EpochLease, Prepared, join_failed, refused, prepared, Gathered, gathered, failed, panicked,
  gather, all_hold, prepares, finish_commit, decide, after_requests, commit_at, commit,
}

-- Every answer is a `PrepareOk`, knows of no epoch above `e`, and has a lease that holds at `e`.
abbrev pub Allows : ℕ → List Prepared → Type 0
Allows e [] = Unit {0}
Allows e (prepared highest lease ∷ rs) =
    (highest ≤ e)
    × ((lease.lower_bound_inclusive ≤ e) × ((e ≤ lease.upper_bound_inclusive) × Allows e rs))
Allows e (_ ∷ rs) = ⊥

all_hold-append :
    (e : ℕ) (ls : List EpochLease) (l : EpochLease)
    → all_hold e (ls ++ l ∷ []) ≡ (all_hold e ls && all_hold e (l ∷ []))
unfolding all_hold
all_hold-append e [] l = refl
all_hold-append e (k ∷ ls) l = ground (arith, all_hold-append e ls l)

gather-Allows :
    (e0 e : ℕ) (ls ls' : List EpochLease) (rs : List Prepared)
    → gather e0 ls rs ≡ gathered e ls'
    → all_hold e ls' ≡ true
    → (e0 ≤ e) × ((all_hold e ls ≡ true) × Allows e rs)
unfolding gather all_hold
gather-Allows e0 e ls ls' [] g h = ground arith
gather-Allows e0 e ls ls' (join_failed ∷ rs) g h = ground arith
gather-Allows e0 e ls ls' (refused ∷ rs) g h = ground arith
gather-Allows e0 e ls ls' (prepared highest lease ∷ rs) g h = ground (
  arith,
  gather-Allows (if ltb e0 highest then highest else e0) e (ls ++ lease ∷ []) ls' rs g h,
  all_hold-append e ls lease,
)

-- A run that committed at an epoch from `e0` on that all answers allow: the store has it, and it was
-- sent to all participants after the requests `before`.
abbrev pub Committed :
    Transaction → ℕ → List Prepared → List (FullRangeId × Request) → Run (Unit {0}) → Type 0
Committed t e0 rs before run =
    (e : ℕ) × ((e0 ≤ e)
      × (Allows e rs
          × ((run.row ≡ some (Store.committed e))
              × ((run.transaction.state ≡ committed)
                  × (run.sent
                      ≡ before ++ to_participants (commit_request e) t.participant_ranges)))))

decide-gathered :
    (t : Transaction) (row : Option Status) (e : ℕ) (ls : List EpochLease)
    → (decide t row (gathered e ls)).result ≡ ok tt
    → (all_hold e ls ≡ true)
      × (((decide t row (gathered e ls)).row ≡ some (Store.committed e))
          × (((decide t row (gathered e ls)).transaction.state ≡ committed)
              × ((decide t row (gathered e ls)).sent
                  ≡ to_participants (commit_request e) t.participant_ranges)))
unfolding decide record_abort after_abort returns abort_transaction finish_commit commit_transaction
    maybe_get_commit_epoch
decide-gathered t none e ls h = ground arith
decide-gathered t (some Store.started) e ls h = ground arith
decide-gathered t (some (Store.committed k)) e ls h = ground arith
decide-gathered t (some Store.aborted) e ls h = ground arith

decide-failed : (t : Transaction) (row : Option Status) → (decide t row failed).result ≢ ok tt
unfolding decide record_abort after_abort abort_transaction maybe_get_commit_epoch
decide-failed t none = ground arith
decide-failed t (some Store.started) = ground arith
decide-failed t (some (Store.committed k)) = ground arith
decide-failed t (some Store.aborted) = ground arith

decide-ok :
    (t : Transaction) (row : Option Status) (e0 : ℕ) (rs : List Prepared) (g : Gathered)
    → gather e0 [] rs ≡ g
    → (decide t row g).result ≡ ok tt
    → Committed t e0 rs [] (decide t row g)
unfolding decide returns
decide-ok t row e0 rs (gathered e ls) p h =
    let d = decide-gathered t row e ls h in
    let a = gather-Allows e0 e [] ls rs p d.0 in (e, (a.0, (a.1.1, d.1)))
decide-ok t row e0 rs failed p h = absurd (decide-failed t row h)
decide-ok t row e0 rs panicked p h = ground (arith, h)

commit_from :
    (s : State) (t : Transaction) (row : Option Status) (e0 : ℕ) (rs : List Prepared)
    → (commit (record t { state = s }) row (some e0) rs).result ≡ ok tt
    → Committed t e0 rs
        (prepares t.participant_ranges)
        (commit (record t { state = s }) row (some e0) rs)
unfolding commit check_still_running after_requests commit_at returns
commit_from running t row e0 rs h =
    let c = decide-ok (record t { state = preparing }) row e0 rs (gather e0 [] rs) refl h in
    (
      c.0,
      (
        c.1.0,
        (
          c.1.1.0,
          (c.1.1.1.0, (c.1.1.1.1.0, ap (λ x. prepares t.participant_ranges ++ x) c.1.1.1.1.1)),
        ),
      ),
    )
commit_from preparing t row e0 rs h = ground (arith, h)
commit_from aborted t row e0 rs h = ground (arith, h)
commit_from committed t row e0 rs h = ground (arith, h)

-- A commit that succeeds has committed the transaction in the store, at an epoch that is not below the
-- one that the reader returned nor below any that a range knows of, and at which every lease that a
-- range reported holds; no answer to the prepare requests was a failure, and every participant is told
-- to commit at that epoch.
pub commit-Committed :
    (t : Transaction) (row : Option Status) (e0 : ℕ) (rs : List Prepared)
    → (commit t row (some e0) rs).result ≡ ok tt
    → Committed t e0 rs (prepares t.participant_ranges) (commit t row (some e0) rs)
commit-Committed t row e0 rs h = commit_from t.state t row e0 rs h

-- The highest of `e` and the epochs that the ranges know of.
abbrev pub top : ℕ → List Prepared → ℕ
top e [] = e
top e (prepared highest lease ∷ rs) = top (if ltb e highest then highest else e) rs
top e (_ ∷ rs) = top e rs

gather-top :
    (e0 e : ℕ) (ls : List EpochLease) (rs : List Prepared)
    → Allows e rs
    → all_hold e ls ≡ true
    → (ls' : List EpochLease) × ((gather e0 ls rs ≡ gathered (top e0 rs) ls')
        × (all_hold e ls' ≡ true))
unfolding gather all_hold
gather-top e0 e ls [] a h = (ls, (refl, h))
gather-top e0 e ls (join_failed ∷ rs) a h = elim a [ ]
gather-top e0 e ls (refused ∷ rs) a h = elim a [ ]
gather-top e0 e ls (prepared highest lease ∷ rs) a h =
    gather-top (if ltb e0 highest then highest else e0) e (ls ++ lease ∷ []) rs a.1.1.1
      (ground (arith, all_hold-append e ls lease))

commit-gathered :
    (t : Transaction) (e0 : ℕ) (rs : List Prepared)
    → t.state ≡ running
    → Allows (top e0 rs) rs
    → (ls : List EpochLease) × ((gather e0 [] rs ≡ gathered (top e0 rs) ls)
        × (all_hold (top e0 rs) ls ≡ true))
unfolding all_hold
commit-gathered t e0 rs r a = gather-top e0 (top e0 rs) [] rs a refl

-- A running transaction whose ranges all prepared, with leases that hold at the highest epoch in play,
-- commits at that epoch if the store still has it as started.
pub commit_succeeds :
    (t : Transaction) (e0 : ℕ) (rs : List Prepared)
    → t.state ≡ running
    → Allows (top e0 rs) rs
    → ((commit t (some Store.started) (some e0) rs).result ≡ ok tt)
      × ((commit t (some Store.started) (some e0) rs).row ≡ some (Store.committed (top e0 rs)))
unfolding commit check_still_running after_requests commit_at decide finish_commit
    commit_transaction
commit_succeeds t e0 rs r a = let g = commit-gathered t e0 rs r a in ground (arith, r, g.1)

-- When another client has aborted such a transaction, `commit` fails after the prepare requests and
-- tells no range about it, and an `abort` that follows is refused and tells none either.
pub commit_of_aborted :
    (t : Transaction) (e0 : ℕ) (rs : List Prepared)
    → t.state ≡ running
    → Allows (top e0 rs) rs
    → let run = commit t (some Store.aborted) (some e0) rs in
      (run.result ≡ err (transaction_aborted other))
      × ((run.sent ≡ prepares t.participant_ranges ++ [])
          × (((abort run.transaction run.row).result ≡ err transaction_no_longer_running)
              × ((abort run.transaction run.row).sent ≡ [])))
unfolding commit check_still_running after_requests commit_at decide finish_commit
    commit_transaction abort returns
commit_of_aborted t e0 rs r a = let g = commit-gathered t e0 rs r a in ground (arith, r, g.1)
