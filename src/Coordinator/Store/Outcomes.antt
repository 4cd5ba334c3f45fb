-- ===== src/Coordinator/Store/Outcomes.antt =====
-- The answers that the callers of the store get.
use atomix.Base.{ℕ, ◌≡◌, refl, Option, none, some, Bool, true, false, List, [], ◌∷◌}
use atomix.Coordinator.Store.{
  Status, started, committed, aborted, OpResult, transaction_is_aborted, transaction_is_committed,
  start_transaction, commit_transaction, maybe_get_commit_epoch, abort_transaction,
}

-- A call of some client on the row of one transaction.
pub data Call : Type 0 where
  start try_abort : Call
  try_commit : (epoch : ℕ) → Call

abbrev pub run : Call → Option Status → Option Status
run start r = start_transaction r
run try_abort r = (abort_transaction r).0
run (try_commit epoch) r = (commit_transaction r epoch).0

abbrev pub run_all : List Call → Option Status → Option Status
run_all [] r = r
run_all (c ∷ cs) r = run_all cs (run c r)

abbrev pub is_committed : OpResult → Bool
is_committed transaction_is_aborted = false
is_committed (transaction_is_committed e) = true

-- The row after a decision.
abbrev Decided : Bool → Option Status → Type 0
Decided true (some (committed e)) = Unit {0}
Decided false (some aborted) = Unit {0}
Decided _ _ = ⊥

run-Decided : (b : Bool) (c : Call) (r : Option Status) → Decided b r → Decided b (run c r)
unfolding start_transaction abort_transaction commit_transaction
run-Decided true c none d = elim d [ ]
run-Decided false c none d = elim d [ ]
run-Decided true start (some (committed e)) d = tt
run-Decided false start (some aborted) d = tt
run-Decided true try_abort (some (committed e)) d = tt
run-Decided false try_abort (some aborted) d = tt
run-Decided true (try_commit e') (some (committed e)) d = tt
run-Decided false (try_commit e') (some aborted) d = tt
run-Decided true c (some started) d = elim d [ ]
run-Decided false c (some started) d = elim d [ ]
run-Decided true c (some aborted) d = elim d [ ]
run-Decided false c (some (committed e)) d = elim d [ ]

run_all-Decided :
    (b : Bool) (cs : List Call) (r : Option Status) → Decided b r → Decided b (run_all cs r)
run_all-Decided b [] r d = d
run_all-Decided b (c ∷ cs) r d = run_all-Decided b cs (run c r) (run-Decided b c r d)

commit-Decided :
    (s : Status) (e : ℕ)
    → Decided (is_committed (commit_transaction (some s) e).1) (commit_transaction (some s) e).0
unfolding commit_transaction
commit-Decided started e = tt
commit-Decided (committed e') e = tt
commit-Decided aborted e = tt

abort-Decided :
    (s : Status)
    → Decided (is_committed (abort_transaction (some s)).1) (abort_transaction (some s)).0
unfolding abort_transaction maybe_get_commit_epoch
abort-Decided started = tt
abort-Decided (committed e') = tt
abort-Decided aborted = tt

answers :
    (b : Bool) (r : Option Status) (e : ℕ)
    → Decided b r
    → (is_committed (commit_transaction r e).1 ≡ b) × (is_committed (abort_transaction r).1 ≡ b)
unfolding abort_transaction maybe_get_commit_epoch commit_transaction
answers true none e d = elim d [ ]
answers false none e d = elim d [ ]
answers true (some started) e d = elim d [ ]
answers false (some started) e d = elim d [ ]
answers true (some (committed e')) e d = (refl, refl)
answers false (some (committed e')) e d = elim d [ ]
answers true (some aborted) e d = elim d [ ]
answers false (some aborted) e d = (refl, refl)

-- All callers agree: once a commit of a transaction that has a row in the store has been answered,
-- every later commit and every later abort, after any calls of any clients, is answered with the same
-- decision.
pub commit_transaction_agrees :
    (s : Status) (e e' : ℕ) (cs : List Call)
    → (is_committed (commit_transaction (run_all cs (commit_transaction (some s) e).0) e').1
        ≡ is_committed (commit_transaction (some s) e).1)
      × (is_committed (abort_transaction (run_all cs (commit_transaction (some s) e).0)).1
          ≡ is_committed (commit_transaction (some s) e).1)
commit_transaction_agrees s e e' cs = answers _ _ e' (run_all-Decided _ cs _ (commit-Decided s e))

-- The same for an abort that has been answered.
pub abort_transaction_agrees :
    (s : Status) (e' : ℕ) (cs : List Call)
    → (is_committed (commit_transaction (run_all cs (abort_transaction (some s)).0) e').1
        ≡ is_committed (abort_transaction (some s)).1)
      × (is_committed (abort_transaction (run_all cs (abort_transaction (some s)).0)).1
          ≡ is_committed (abort_transaction (some s)).1)
abort_transaction_agrees s e' cs = answers _ _ e' (run_all-Decided _ cs _ (abort-Decided s))

-- The epoch of the last call that commits, `e` if there is none.
abbrev pub last_epoch : ℕ → List Call → ℕ
last_epoch e [] = e
last_epoch e (try_commit e' ∷ cs) = last_epoch e' cs
last_epoch e (start ∷ cs) = last_epoch e cs
last_epoch e (try_abort ∷ cs) = last_epoch e cs

run_all-committed :
    (e : ℕ) (cs : List Call) → run_all cs (some (committed e)) ≡ some (committed (last_epoch e cs))
unfolding start_transaction abort_transaction commit_transaction
run_all-committed e [] = refl
run_all-committed e (start ∷ cs) = run_all-committed e cs
run_all-committed e (try_abort ∷ cs) = run_all-committed e cs
run_all-committed e (try_commit e' ∷ cs) = run_all-committed e' cs

-- The epoch of a transaction whose commit succeeded is that of the last call that committed it, not of
-- the first: a commit of a committed transaction overwrites the epoch, and a later abort reports the
-- new one.
pub abort_reports_last_epoch :
    (e : ℕ) (cs : List Call)
    → (abort_transaction (run_all cs (commit_transaction (some started) e).0)).1
      ≡ transaction_is_committed (last_epoch e cs)
unfolding abort_transaction maybe_get_commit_epoch commit_transaction
abort_reports_last_epoch e cs = rw (run_all-committed e cs) refl
