-- ===== src/Coordinator/Transaction.antt =====
-- The state of a transaction, its keyspaces and ranges, and `abort`: coordinator/src/transaction.rs. A call takes what the services answer as arguments:
-- the keyspace info of the universe service, the range of a key, the range server's values, and the
-- row of the transaction in the store. Requests to ranges are listed in `sent`; the calls wait for
-- them and ignore how an abort ends.
use atomix.Base.{
  ℕ, ◌-◌, ◌^◌, Bool, false, Option, none, some, List, [], ◌∷◌, Bytes, ltb, ◌==◌, if◌then◌else◌,
  ℕ_discrete, bytes_discrete, lookup, insert, u64_mod,
}
use atomix.Routing.{FullRangeId}
use atomix.Coordinator.Store.{
  Status, OpResult, transaction_is_aborted, transaction_is_committed, abort_transaction,
}

pub data State : Type 0 where
  running preparing aborted committed : State

-- An i64: `pos n` is `n` and `negsuc n` is `- n - 1`.
pub data ℤ : Type 0 where
  pos negsuc : ℕ → ℤ

-- `as u64` and `as i64`.
unfoldable pub to_u64 : ℤ → ℕ
to_u64 (pos n) = n
to_u64 (negsuc n) = u64_mod - 1 - n

unfoldable pub to_i64 : ℕ → ℤ
to_i64 n = if ltb n (2 ^ 63) then pos n else negsuc (u64_mod - 1 - n)

unfoldable pub same : ℤ → ℤ → Bool
same (pos m) (pos n) = m == n
same (negsuc m) (negsuc n) = m == n
same _ _ = false

abbrev pub invalid_leader_sequence_number : ℤ
invalid_leader_sequence_number = negsuc 0

pub record ParticipantRange : Type 0 where
  pub readset : List Bytes
  pub writeset : List (Bytes × Bytes)
  pub deleteset : List Bytes
  pub leader_sequence_number : ℕ

pub record Keyspace : Type 0 where
  pub namespace : Bytes
  pub name : Bytes

unfoldable pub keyspace_discrete : Discrete Keyspace
unfolding bytes_discrete
keyspace_discrete = hlevel bytes_discrete

unfoldable pub range_discrete : Discrete FullRangeId
unfolding ℕ_discrete
range_discrete = hlevel ℕ_discrete

pub record Transaction : Type 0 where
  pub state : State
  pub participant_ranges : List (FullRangeId × ParticipantRange)
  pub resolved_keyspaces : List (Keyspace × ℕ)

pub data AbortReason : Type 0 where
  deadlock_prevention transaction_lock_lost range_leadership_changed range_lease_expired :
      AbortReason
  range_partitioning_changed transaction_timeout prepare_failed other : AbortReason

pub data Error : Type 0 where
  keyspace_does_not_exist transaction_no_longer_running timeout : Error
  transaction_done_but_state_unknown internal_error : Error
  transaction_aborted : AbortReason → Error

-- The end of a call; `panics` for a panic.
pub data Result (A : Type 0) : Type 0 where
  ok : A → Result A
  err : Error → Result A
  panics : Result A

unfoldable pub new : Transaction
new = record { state = running; participant_ranges = []; resolved_keyspaces = [] }

-- The universe service: a failed call, no such keyspace, or its id.
pub data KeyspaceInfo : Type 0 where
  fails absent : KeyspaceInfo
  found : ℕ → KeyspaceInfo

unfoldable pub resolve_keyspace : Transaction → Keyspace → KeyspaceInfo → Transaction × Result ℕ
resolve_keyspace t keyspace info = elim (lookup keyspace_discrete keyspace t.resolved_keyspaces) [
  | some k ↦ (t, ok k)
  | none ↦ elim info [
    | fails ↦ (t, err internal_error)
    | absent ↦ (t, err keyspace_does_not_exist)
    | found k ↦ (
      record t { resolved_keyspaces = insert keyspace_discrete keyspace k t.resolved_keyspaces },
      ok k,
    )
  ]
]

-- The range of a key, with the oracle that maps the keys of a keyspace to ranges.
unfoldable pub range_of_key :
    (ℕ → Bytes → Option FullRangeId) → Bytes → Result ℕ → Result FullRangeId
range_of_key oracle key (ok k) = elim (oracle k key) [
  | none ↦ err keyspace_does_not_exist
  | some id ↦ ok id
]
range_of_key oracle key (err e) = err e
range_of_key oracle key panics = panics

unfoldable pub resolve_full_record_key :
    (ℕ → Bytes → Option FullRangeId)
    → Transaction
    → Keyspace
    → Bytes
    → KeyspaceInfo
    → Transaction × Result FullRangeId
resolve_full_record_key oracle t keyspace key info =
    let (t', k) = resolve_keyspace t keyspace info in (t', range_of_key oracle key k)

unfoldable pub check_still_running : State → Option Error
check_still_running running = none
check_still_running aborted = some (transaction_aborted other)
check_still_running preparing = some transaction_no_longer_running
check_still_running committed = some transaction_no_longer_running

abbrev pub fresh_range : ParticipantRange
fresh_range = record { readset = []; writeset = []; deleteset = []; leader_sequence_number = 0 }

-- The range's entry, made if it is absent.
unfoldable pub get_participant_range : Transaction → FullRangeId → ParticipantRange
get_participant_range t range_id = elim (lookup range_discrete range_id t.participant_ranges) [
  | none ↦ fresh_range
  | some p ↦ p
]

unfoldable pub set_range : Transaction → FullRangeId → ParticipantRange → Transaction
set_range t range_id p = record t {
  participant_ranges = insert range_discrete range_id p t.participant_ranges;
}

-- A request to a range.
pub data Request : Type 0 where
  get_request : Bytes → Request
  prepare_request :
      (has_reads : Bool) → (writes : List (Bytes × Bytes)) → (deletes : List Bytes) → Request
  abort_request : Request
  commit_request : (epoch : ℕ) → Request

-- What a call leaves: the transaction, its row in the store, the requests to ranges, and the result.
pub record Run (A : Type 0) : Type 0 where
  pub transaction : Transaction
  pub row : Option Status
  pub sent : List (FullRangeId × Request)
  pub result : Result A

unfoldable pub to_participants :
    Request → List (FullRangeId × ParticipantRange) → List (FullRangeId × Request)
to_participants r [] = []
to_participants r ((range_id, p) ∷ ps) = (range_id, r) ∷ to_participants r ps

unfoldable pub after_abort : {A : Type 0} → OpResult → Result A → Result A
after_abort transaction_is_aborted r = r
after_abort (transaction_is_committed e) r = panics

-- The transaction counts as aborted before the store answers. `answer` is what the caller returns.
unfoldable pub record_abort :
    {A : Type 0} → Transaction → Option Status → (answer : Result A) → Run A
record_abort t row answer =
    let (row', outcome) = abort_transaction row in
    record {
      transaction = record t { state = aborted };
      row = row';
      sent = to_participants abort_request t.participant_ranges;
      result = after_abort outcome answer;
    }

unfoldable pub abort : Transaction → Option Status → Run (Unit {0})
abort t row = elim t.state [
  | aborted ↦ record { transaction = t; row = row; sent = []; result = ok tt }
  | running ↦ record_abort t row (ok tt)
  | _ ↦ record { transaction = t; row = row; sent = []; result = err transaction_no_longer_running }
]

-- The end of a call that touches no range and no row.
unfoldable pub returns : {A : Type 0} → Transaction → Option Status → Result A → Run A
returns t row r = record { transaction = t; row = row; sent = []; result = r }
