-- ===== src/RangeServer/RangeManager/Transactions.antt =====
-- The calls of transactions on a range: `get`, `prepare`, `abort`, `commit` and `prefetch_get` of
-- rangeserver/src/range_manager/impl.rs. The storage and the log are parameters: their answers are
-- arguments, and the writes that the storage carried out are part of the result. The numbers that the
-- source casts between i64 and u64, `leader_sequence_number` and the `vid` of a commit, are their 64
-- bits, read without sign: a cast keeps them.
use atomix.Base.{
  ℕ, suc, Bool, true, false, not, ◌&&◌, Option, none, some, List, [], ◌∷◌, ◌++◌, map, Bytes,
  if◌then◌else◌, ℕ_discrete, lookup, insert, remove,
}
use atomix.Common.KeyRange.{KeyRange, includes}
use atomix.RangeServer.LockTable.{sent, queued, wait_die, acquire, release, is_currently_holding}
use atomix.RangeServer.PrefetchingBuffer as Buffer
use atomix.RangeServer.PrefetchingBuffer.{get_from_buffer, process_transaction_complete}
use atomix.RangeServer.Lease.{LeaseState, maybe_update}
use atomix.RangeServer.RangeManager.{
  Error, range_is_not_loaded, key_is_out_of_range, transaction_aborted, transaction_lock_lost,
  prefetch_error, storage_error, wal_error, PrepareRequest, LoadedState, State, loaded,
}

-- How the part of a call before it has the lock ends. One that waits goes on when its permit comes.
pub data Begun : Type 0 where
  goes_on waits : Begun
  fails : Error → Begun

-- `acquire_range_lock` up to its `await`.
unfoldable pub acquire_range_lock :
    LoadedState → (tx sender requested now : ℕ) → LoadedState × Begun
acquire_range_lock l tx sender requested now =
    let (table, grant) = acquire l.lock_table tx sender requested now in
    let l' = record l { lock_table = table } in
    elim grant [
      | sent ↦ (l', goes_on)
      | queued ↦ (l', waits)
      | wait_die ↦ (l', fails transaction_aborted)
    ]

abbrev pub loaded_and : LoadedState × Begun → State × Begun
loaded_and (l, b) = (loaded l, b)

unfoldable pub begin_get :
    State → (tx : ℕ) → (key : Bytes) → (sender requested now : ℕ) → State × Begun
begin_get (loaded l) tx key sender requested now =
    if includes l.key_range key
    then loaded_and (acquire_range_lock l tx sender requested now)
    else (loaded l, fails key_is_out_of_range)
begin_get s tx key sender requested now = (s, fails range_is_not_loaded)

pub record GetResult : Type 0 where
  pub val : Option Bytes
  pub leader_sequence_number : ℕ

pub data Got : Type 0 where
  ok : GetResult → Got
  err : Error → Got

-- The answer of the storage: the value, or a failure.
pub data Answer : Type 0 where
  answers : Option Bytes → Answer
  failed : Answer

-- The rest of `get`. The storage is asked only if the buffer has no value. The number of the leader is
-- answered as an i64 with the same bits.
unfoldable pub finish_get : LoadedState → Buffer.State → Bytes → Answer → Got
finish_get l buffer key storage = elim (get_from_buffer buffer key) [
  | Buffer.err ↦ err prefetch_error
  | Buffer.ok v ↦ elim v [
    | some val ↦ ok (record { val = some val; leader_sequence_number = l.leader_sequence_number })
    | none ↦ elim storage [
      | answers val ↦ ok (record { val = val; leader_sequence_number = l.leader_sequence_number })
      | failed ↦ err storage_error
    ]
  ]
]

unfoldable pub all_include : KeyRange → List Bytes → Bool
all_include r [] = true
all_include r (key ∷ keys) = includes r key && all_include r keys

abbrev pub put_keys : List (Bytes × Bytes) → List Bytes
put_keys = map λ p. p.0

unfoldable pub begin_prepare :
    State → (tx : ℕ) → PrepareRequest → (sender requested now : ℕ) → State × Begun
begin_prepare (loaded l) tx prepare sender requested now =
    if not (all_include l.key_range (put_keys prepare.puts))
    then (loaded l, fails key_is_out_of_range)
    else if not (all_include l.key_range prepare.deletes)
    then (loaded l, fails key_is_out_of_range)
    else if prepare.has_reads && not (is_currently_holding l.lock_table tx)
    then (loaded l, fails transaction_lock_lost)
    else loaded_and (acquire_range_lock l tx sender requested now)
begin_prepare s tx prepare sender requested now = (s, fails range_is_not_loaded)

pub data Prepared : Type 0 where
  ok : LeaseState → Prepared
  err : Error → Prepared

-- The rest of `prepare`, with the answer of the log. The result has the lease and the highest known
-- epoch.
unfoldable pub finish_prepare :
    LoadedState → (tx : ℕ) → PrepareRequest → (logged : Bool) → LoadedState × Prepared
finish_prepare l tx prepare true = (
  record l { pending_prepare_records = insert ℕ_discrete tx prepare l.pending_prepare_records },
  ok l.lease,
)
finish_prepare l tx prepare false = (l, err wal_error)

-- The counter is the `vid` of a commit, an i64, as a u64 with the same bits.
pub record KeyVersion : Type 0 where
  pub epoch : ℕ
  pub version_counter : ℕ

-- A write of the storage.
pub data Write : Type 0 where
  upserts : Bytes → Bytes → KeyVersion → Write
  deletes : Bytes → KeyVersion → Write

-- How `commit` and `abort` end, with the state, the buffer and the writes of the storage.
pub data Ended : Type 0 where
  ok panics : Ended
  err : Error → Ended

pub record Outcome : Type 0 where
  pub state : State
  pub buffer : Buffer.State
  pub written : List Write
  pub ended : Ended

-- Release of the lock and the end of the transaction in the buffer. A panic of the release leaves the
-- buffer.
unfoldable pub end_transaction :
    (alive : ℕ → Bool) → LoadedState → Buffer.State → (tx now : ℕ) → List Write → Outcome
end_transaction alive l buffer tx now written =
    let r = release alive l.lock_table now in
    let state = loaded (record l { lock_table = r.state }) in
    if r.completed
    then record {
      state = state;
      buffer = process_transaction_complete buffer tx;
      written = written;
      ended = ok;
    }
    else record { state = state; buffer = buffer; written = written; ended = panics }

unfoldable pub abort :
    (alive : ℕ → Bool) → State → Buffer.State → (tx now : ℕ) → (logged : Bool) → Outcome
abort alive (loaded l) buffer tx now logged =
    if not (is_currently_holding l.lock_table tx)
    then record { state = loaded l; buffer = buffer; written = []; ended = ok }
    else if logged
    then end_transaction alive l buffer tx now []
    else record { state = loaded l; buffer = buffer; written = []; ended = err wal_error }
abort alive s buffer tx now logged = record {
  state = s;
  buffer = buffer;
  written = [];
  ended = err range_is_not_loaded;
}

-- The writes of the two loops of `commit`, in their order.
unfoldable pub writes_of : KeyVersion → PrepareRequest → List Write
writes_of version prepare =
    map (λ (p : Bytes × Bytes). upserts p.0 p.1 version) prepare.puts
    ++ map (λ key. deletes key version) prepare.deletes

unfoldable pub buffer_write : Buffer.State → Write → Buffer.State
buffer_write buffer (upserts key val version) = Buffer.upsert buffer key val
buffer_write buffer (deletes key version) = Buffer.delete buffer key

-- The loops: the `i`-th call of the storage succeeds if `stores i`. The result has the buffer, the
-- writes that were stored, and whether all were.
unfoldable pub apply_writes :
    (stores : ℕ → Bool) → (i : ℕ) → Buffer.State → List Write → Buffer.State × List Write × Bool
apply_writes stores i buffer [] = (buffer, [], true)
apply_writes stores i buffer (w ∷ ws) =
    let (after, written, all) = apply_writes stores (suc i) (buffer_write buffer w) ws in
    if stores i then (after, w ∷ written, all) else (buffer, [], false)

-- `commit` from where it has the record on.
unfoldable pub commit_record :
    (stores : ℕ → Bool) (alive : ℕ → Bool)
    → LoadedState
    → Buffer.State
    → (tx now : ℕ) → KeyVersion
    → PrepareRequest
    → Outcome
commit_record stores alive l buffer tx now version prepare =
    let (after, written, all) = apply_writes stores 0 buffer (writes_of version prepare) in
    if all
    then end_transaction alive l after tx now written
    else record { state = loaded l; buffer = after; written = written; ended = err storage_error }

unfoldable pub commit :
    (stores : ℕ → Bool) (alive : ℕ → Bool)
    → State
    → Buffer.State
    → (tx epoch vid now : ℕ) → (logged : Bool) → Outcome
commit stores alive (loaded l) buffer tx epoch vid now logged =
    let known = record l {
      lease = record l.lease {
        highest_known_epoch = maybe_update l.lease.highest_known_epoch epoch;
      };
    } in
    if not (is_currently_holding l.lock_table tx)
    then record { state = loaded l; buffer = buffer; written = []; ended = ok }
    else if logged
    then elim (lookup ℕ_discrete tx l.pending_prepare_records) [
      | none ↦ record { state = loaded known; buffer = buffer; written = []; ended = panics }
      | some prepare ↦
          commit_record stores alive
            (record known {
              pending_prepare_records = remove ℕ_discrete tx l.pending_prepare_records;
            })
            buffer tx now (record { epoch = epoch; version_counter = vid }) prepare
    ]
    else record { state = loaded known; buffer = buffer; written = []; ended = err wal_error }
commit stores alive s buffer tx epoch vid now logged = record {
  state = s;
  buffer = buffer;
  written = [];
  ended = err range_is_not_loaded;
}
