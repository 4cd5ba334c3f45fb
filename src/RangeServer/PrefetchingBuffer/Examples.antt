-- ===== src/RangeServer/PrefetchingBuffer/Examples.antt =====
-- The theorems about the prefetching buffer at the buffers of the source's tests.
use atomix.Base.{
  ◌≡◌, ◌≢◌, refl, true, none, some, [], ◌∷◌, Bytes, ℕ_discrete, bytes_discrete, lookup, insert,
  remove, contains, add, discard,
}
use atomix.RangeServer.PrefetchingBuffer.{
  State, loading, requested, ok, err, read_fetched, get_from_buffer, new, note_request,
  add_to_transaction_keys, add_to_key_transactions, or_insert_requested, dispatch, begin_prefetch,
  make_channel, change_keystate_to_loading, resume_prefetch, returns, waits, panics, send, publish,
  fetch_complete, fetch_failed, settle, upsert, delete, evict_key, put_back,
  remove_from_key_transactions, complete_key, complete_keys, process_transaction_complete,
}
use atomix.RangeServer.PrefetchingBuffer.Reads.{
  state_of, value_of, upsert_beats_fetch, get_from_buffer-upsert, get_from_buffer-delete,
  get_from_buffer-fetch_complete,
}
use atomix.RangeServer.PrefetchingBuffer.Loads.{begin_prefetch_owner, fetch_failed_retry}
use atomix.RangeServer.PrefetchingBuffer.Completion.{askers, process_transaction_complete_leaves}
use atomix.RangeServer.PrefetchingBuffer.Links.{IsLinked, IsConsistent, new-IsConsistent}
use atomix.RangeServer.PrefetchingBuffer.Requests.{resume_prefetch_safe, resume_prefetch_stale}
use atomix.RangeServer.PrefetchingBuffer.Histories.{
  AskedByOther, process_transaction_complete_evicts, here, next, begins, fails_fetch, finishes,
  resumes_late, Reach-IsLinked,
}

program : Unit {0}
unfolding get_from_buffer read_fetched note_request add_to_transaction_keys add_to_key_transactions
    or_insert_requested dispatch begin_prefetch make_channel change_keystate_to_loading
    resume_prefetch send publish fetch_complete fetch_failed settle upsert delete evict_key put_back
    remove_from_key_transactions complete_key complete_keys process_transaction_complete lookup
    insert remove contains add discard ℕ_discrete bytes_discrete
program = tt

abbrev key : Bytes
key = 107 ∷ []

abbrev value : Bytes
value = 118 ∷ []

-- Transaction 1 fetches the key, and transaction 2 waits for it.
asked : State
unfolding program
asked = (begin_prefetch (begin_prefetch new 1 key).0 2 key).0

asked-loading : state_of asked key ≡ some (loading 1)
unfolding asked
asked-loading = refl

asked-waits : (begin_prefetch (begin_prefetch new 1 key).0 2 key).1 ≡ waits 1
unfolding program
asked-waits = refl

asked-IsConsistent : IsConsistent asked
unfolding asked
asked-IsConsistent =
    Reach-IsLinked (next (next here (begins new 1 key)) (begins _ 2 key)) new-IsConsistent

-- The fetch fails, both transactions complete, and the request of the second resumes.
evicted : State
unfolding program asked
evicted = process_transaction_complete (process_transaction_complete (fetch_failed asked key 1) 1) 2

Reach-IsLinked_example : IsLinked true (resume_prefetch evicted key 1 (some 0) true).0
unfolding asked evicted
Reach-IsLinked_example =
    Reach-IsLinked
      (next
        (next
          (next (next (next (next here (begins new 1 key)) (begins _ 2 key)) (fails_fetch _ key 1))
            (finishes _ 1))
          (finishes _ 2))
        (resumes_late _ key 1 (some 0) true))
      new-IsConsistent

begin_prefetch_owner_test :
    ((begin_prefetch new 1 key).1 ≢ panics)
    × ((begin_prefetch new 1 key).1 ≡ returns (requested 1)
        → (state_of (begin_prefetch new 1 key).0 key ≡ some (loading 1))
          × ((begin_prefetch (begin_prefetch new 1 key).0 2 key).1 ≡ waits 1))
begin_prefetch_owner_test = begin_prefetch_owner new 1 2 key 1

fetch_failed_retry_test :
    ((begin_prefetch (fetch_failed asked key 1) 3 key).1 ≡ returns (requested 1))
    × (state_of (begin_prefetch (fetch_failed asked key 1) 3 key).0 key ≡ some (loading 1))
fetch_failed_retry_test = fetch_failed_retry asked 3 key 1 asked-loading

upsert_beats_fetch_example :
    (get_from_buffer (upsert asked key value) key ≡ ok (some value))
    × (fetch_complete (upsert asked key value) key none 1 ≡ upsert asked key value)
    × (fetch_failed (upsert asked key value) key 1 ≡ upsert asked key value)
upsert_beats_fetch_example = upsert_beats_fetch asked key value none 1 1 asked-loading

get_from_buffer-upsert_test : get_from_buffer (upsert asked key value) key ≡ ok (some value)
unfolding asked
get_from_buffer-upsert_test = get_from_buffer-upsert asked key value key

get_from_buffer-delete_test : get_from_buffer (delete asked key) key ≡ err
unfolding asked
get_from_buffer-delete_test = get_from_buffer-delete asked key key

-- A key that the storage does not have reads as an error once it is fetched.
get_from_buffer-fetch_complete_test : get_from_buffer (fetch_complete asked key none 1) key ≡ err
unfolding asked
get_from_buffer-fetch_complete_test = get_from_buffer-fetch_complete asked key key none 1

process_transaction_complete_leaves_test :
    askers (process_transaction_complete asked 1) key ≡ some (2 ∷ [])
unfolding asked
process_transaction_complete_leaves_test = (process_transaction_complete_leaves asked 1 2 key).1

resume_prefetch_safe_test :
    IsConsistent (resume_prefetch asked key 1 (some 0) true).0
    × ((resume_prefetch asked key 1 (some 0) true).1 ≢ panics)
unfolding asked
resume_prefetch_safe_test = resume_prefetch_safe asked 2 key 1 (some 0) true refl asked-IsConsistent

process_transaction_complete_evicts_example :
    (AskedByOther asked 1 key
      → (state_of (process_transaction_complete asked 1) key ≡ state_of asked key)
        × (value_of (process_transaction_complete asked 1) key ≡ value_of asked key))
    × (¬ AskedByOther asked 1 key
        → (state_of (process_transaction_complete asked 1) key ≡ none)
          × (value_of (process_transaction_complete asked 1) key ≡ none))
process_transaction_complete_evicts_example =
    process_transaction_complete_evicts asked 1 key asked-IsConsistent

resume_prefetch_stale_test :
    ((resume_prefetch evicted key 1 (some 0) true).1 ≡ panics)
    × (state_of (resume_prefetch evicted key 1 (some 0) true).0 key ≡ some (loading 1))
    × (askers (resume_prefetch evicted key 1 (some 0) true).0 key ≡ none)
unfolding program asked evicted
resume_prefetch_stale_test = resume_prefetch_stale evicted key 1 0 1 refl refl
