-- ===== src/RangeServer/RangeManager.antt =====
-- rangeserver/src/range_manager/impl.rs but for the renewal of leases: the state of a range, and its
-- loading. A method that takes the lock on the state more than once, or waits while others may run,
-- is cut into its critical sections. The broadcast channel of a load is a number. Numbers
-- that the source casts between i64 and u64 are their 64 bits, read without sign.
pub mod Transactions
pub mod Locks
pub mod Loading
pub mod Commits
pub mod Writes
mod Examples
use atomix.Base.{ℕ, Bool, true, false, not, List, [], Bytes, Option, none, some, if◌then◌else◌}
use atomix.Common.KeyRange.{KeyRange}
use atomix.RangeServer.LockTable as LockTable
use atomix.RangeServer.Lease.{LeaseState, load_lease}

-- What the model distinguishes of `Error`.
pub data Error : Type 0 where
  range_is_not_loaded key_is_out_of_range transaction_aborted transaction_lock_lost : Error
  prefetch_error storage_error wal_error epoch_supplier_error : Error

-- A `PrepareRequest`: its transaction is an argument of the calls.
pub record PrepareRequest : Type 0 where
  pub has_reads : Bool
  pub puts : List (Bytes × Bytes)
  pub deletes : List Bytes

-- Of `RangeInfo` the epoch lease stands with the highest known epoch in `lease`.
pub record LoadedState : Type 0 where
  pub key_range : KeyRange
  pub leader_sequence_number : ℕ
  pub lease : LeaseState
  pub lock_table : LockTable.State
  pub pending_prepare_records : List (ℕ × PrepareRequest)

pub data State : Type 0 where
  not_loaded : State
  loading : ℕ → State
  loaded : LoadedState → State
  unloaded : State

-- What the two critical sections of `load` that do not load end with.
pub data Claimed : Type 0 where
  already_loaded : Claimed
  waits : ℕ → Claimed
  loads : Claimed
  fails : Error → Claimed

-- The first section, under the read lock: whether `load` returns at once.
unfoldable pub is_loaded : State → Bool
is_loaded (loaded l) = true
is_loaded s = false

-- The second, under the write lock, with the channel that it would make.
unfoldable pub claim_load : State → (channel : ℕ) → State × Claimed
claim_load (loaded l) channel = (loaded l, already_loaded)
claim_load (loading c) channel = (loading c, waits c)
claim_load not_loaded channel = (loading channel, loads)
claim_load unloaded channel = (unloaded, fails range_is_not_loaded)

-- What `load_inner` returns.
pub data LoadResult : Type 0 where
  ok : LoadedState → LoadResult
  err : Error → LoadResult

-- `RangeInfo` as the storage returns it; of its lease only the upper bound is read.
pub record RangeInfo : Type 0 where
  pub key_range : KeyRange
  pub leader_sequence_number : ℕ
  pub lease_upper_bound : ℕ

-- `load_inner` with the answers of the epoch supplier, of the storage and of the log, in the order of the
-- calls. `none` and `false` are errors.
unfoldable pub load_inner :
    (num_epochs_per_lease : ℕ)
    → (epoch : Option ℕ) → (range_info : Option RangeInfo) → (waited renewed synced : Bool)
    → LoadResult
load_inner num_epochs_per_lease none range_info waited renewed synced = err epoch_supplier_error
load_inner num_epochs_per_lease (some epoch) none waited renewed synced = err storage_error
load_inner num_epochs_per_lease (some epoch) (some info) waited renewed synced =
    if not waited
    then err epoch_supplier_error
    else if not renewed
    then err storage_error
    else if not synced
    then err wal_error
    else ok (record {
      key_range = info.key_range;
      leader_sequence_number = info.leader_sequence_number;
      lease = load_lease epoch info.lease_upper_bound num_epochs_per_lease;
      lock_table = LockTable.new;
      pending_prepare_records = [];
    })

pub data LoadEnd : Type 0 where
  returns_ok panics : LoadEnd
  returns_err : Error → LoadEnd

-- The last section, under the write lock. `heard` says whether the channel has a receiver; without one
-- `send` fails, and after a failed load its result is unwrapped.
unfoldable pub finish_load : State → LoadResult → (heard : Bool) → State × LoadEnd
finish_load s (err e) true = (unloaded, returns_err e)
finish_load s (err e) false = (unloaded, panics)
finish_load s (ok l) heard = (loaded l, returns_ok)

unfoldable pub unload : State → State
unload s = unloaded

unfoldable pub is_unloaded : State → Bool
is_unloaded unloaded = true
is_unloaded s = false
