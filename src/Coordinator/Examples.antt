-- ===== src/Coordinator/Examples.antt =====
-- The theorems about the coordinator at a transaction on one range.
use atomix.Base.{
  ℕ, ◌≡◌, refl, Option, none, some, List, [], ◌∷◌, ◌++◌, Bytes, arith, ℕ_discrete, bytes_discrete,
  lookup, insert, remove, contains, add, discard,
}
use atomix.Routing.{FullRangeId}
use atomix.Coordinator.Store
use atomix.Coordinator.Store.{
  Status, transaction_is_committed, commit_transaction, abort_transaction, start_transaction,
  maybe_get_commit_epoch,
}
use atomix.Coordinator.Store.Outcomes.{
  try_abort, try_commit, run_all, is_committed, commit_transaction_agrees, abort_reports_last_epoch,
}
use atomix.Coordinator.Transaction.{
  Transaction, Keyspace, fails, absent, found, ok, err, other, transaction_aborted,
  transaction_no_longer_running, new, resolve_keyspace, range_of_key, resolve_full_record_key,
  check_still_running, get_participant_range, set_range, record_abort, after_abort, to_participants,
  keyspace_discrete, range_discrete, running, abort, returns,
}
use atomix.Coordinator.Access.{
  write_range, put_in, del_in, put, del, get_answered, get_remote, get_resolved, get,
}
use atomix.Coordinator.Access.Writes.{get-put, get-del}
use atomix.Coordinator.Commit.{
  Prepared, prepared, gather, all_hold, prepares, finish_commit, decide, after_requests, commit_at,
  commit,
}
use atomix.Coordinator.Commit.Decision.{
  Committed, commit-Committed, commit_succeeds, commit_of_aborted,
}

program : Unit {0}
unfolding commit_transaction abort_transaction start_transaction maybe_get_commit_epoch new
    resolve_keyspace range_of_key resolve_full_record_key check_still_running get_participant_range
    set_range record_abort after_abort to_participants keyspace_discrete range_discrete abort
    returns write_range put_in del_in put del get_answered get_remote get_resolved get gather
    all_hold prepares finish_commit decide after_requests commit_at commit lookup insert remove
    contains add discard ℕ_discrete bytes_discrete
program = tt

abbrev key : Bytes
key = 107 ∷ []

abbrev value : Bytes
value = 118 ∷ []

abbrev keyspace : Keyspace
keyspace = record { namespace = 110 ∷ []; name = 115 ∷ [] }

abbrev oracle : ℕ → Bytes → Option FullRangeId
oracle k _ = some (record { keyspace_id = k; range_id = 8 })

written : Transaction
unfolding program
written = (put oracle new keyspace key value (found 5)).0

abbrev answers : List Prepared
answers = prepared 6 (record { lower_bound_inclusive = 3; upper_bound_inclusive = 9 }) ∷ []

put_done : (put oracle new keyspace key value (found 5)).1 ≡ ok tt
unfolding program
put_done = refl

del_done : (del oracle new keyspace key (found 5)).1 ≡ ok tt
unfolding program
del_done = refl

commit_done : (commit written (some Store.started) (some 4) answers).result ≡ ok tt
unfolding written
commit_done = refl

written-running : written.state ≡ running
unfolding written
written-running = refl

get-put_example :
    let t' = (put oracle new keyspace key value (found 5)).0 in
    ((get oracle t' none keyspace key fails none).result ≡ ok (some value))
    × ((get oracle t' none keyspace key fails none).sent ≡ [])
get-put_example = get-put oracle keyspace new none key value (found 5) fails none put_done

get-del_test :
    let t' = (del oracle new keyspace key (found 5)).0 in
    ((get oracle t' none keyspace key absent none).result ≡ ok none)
    × ((get oracle t' none keyspace key absent none).sent ≡ [])
get-del_test = get-del oracle keyspace new none key (found 5) absent none del_done

commit-Committed_example :
    Committed written 4 answers
      (prepares written.participant_ranges)
      (commit written (some Store.started) (some 4) answers)
commit-Committed_example = commit-Committed written (some Store.started) 4 answers commit_done

commit_succeeds_example :
    ((commit written (some Store.started) (some 4) answers).result ≡ ok tt)
    × ((commit written (some Store.started) (some 4) answers).row ≡ some (Store.committed 6))
commit_succeeds_example =
    commit_succeeds written 4 answers written-running
      (omega arith, (omega arith, (omega arith, tt)))

commit_of_aborted_example :
    let run = commit written (some Store.aborted) (some 4) answers in
    (run.result ≡ err (transaction_aborted other))
    × ((run.sent ≡ prepares written.participant_ranges ++ [])
        × (((abort run.transaction run.row).result ≡ err transaction_no_longer_running)
            × ((abort run.transaction run.row).sent ≡ [])))
commit_of_aborted_example =
    commit_of_aborted written 4 answers written-running
      (omega arith, (omega arith, (omega arith, tt)))

commit_transaction_agrees_example :
    (is_committed
        (commit_transaction
          (run_all (try_abort ∷ []) (commit_transaction (some Store.started) 5).0)
          7).1
      ≡ is_committed (commit_transaction (some Store.started) 5).1)
    × (is_committed
          (abort_transaction
            (run_all (try_abort ∷ []) (commit_transaction (some Store.started) 5).0)).1
        ≡ is_committed (commit_transaction (some Store.started) 5).1)
commit_transaction_agrees_example = commit_transaction_agrees Store.started 5 7 (try_abort ∷ [])

abort_reports_last_epoch_test :
    (abort_transaction
      (run_all (try_commit 7 ∷ []) (commit_transaction (some Store.started) 5).0)).1
    ≡ transaction_is_committed 7
abort_reports_last_epoch_test = abort_reports_last_epoch 5 (try_commit 7 ∷ [])
