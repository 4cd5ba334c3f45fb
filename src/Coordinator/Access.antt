-- ===== src/Coordinator/Access.antt =====
-- The reads and writes of coordinator/src/transaction.rs: `put`, `del` and `get`.
pub mod Writes
use atomix.Base.{
  ℕ, ◌+◌, ◌-◌, ◌^◌, Bool, true, false, not, ◌&&◌, Option, none, some, List, [], ◌∷◌, Bytes, ltb,
  ◌==◌, if◌then◌else◌, ℕ_discrete, bytes_discrete, lookup, insert, remove, contains, add, discard,
  u64_mod,
}
use atomix.Routing.{FullRangeId}
use atomix.Coordinator.Store.{Status}
use atomix.Coordinator.Transaction.{
  State, ℤ, to_u64, to_i64, same, invalid_leader_sequence_number, ParticipantRange, Keyspace,
  Transaction, Error, transaction_aborted, range_leadership_changed, Result, ok, err, panics,
  KeyspaceInfo, resolve_full_record_key, check_still_running, get_participant_range, set_range,
  Request, get_request, Run, record_abort, returns,
}

-- A write of the transaction to one range: `put` and `del` differ in `change`.
unfoldable pub write_range :
    (ParticipantRange → ParticipantRange)
    → Transaction
    → Result FullRangeId
    → Transaction × Result (Unit {0})
write_range change t (ok id) = (set_range t id (change (get_participant_range t id)), ok tt)
write_range change t (err e) = (t, err e)
write_range change t panics = (t, panics)

unfoldable pub put_in : Bytes → Bytes → ParticipantRange → ParticipantRange
put_in key val p = record p {
  deleteset = discard bytes_discrete key p.deleteset;
  writeset = insert bytes_discrete key val p.writeset;
}

unfoldable pub del_in : Bytes → ParticipantRange → ParticipantRange
del_in key p = record p {
  writeset = remove bytes_discrete key p.writeset;
  deleteset = add bytes_discrete key p.deleteset;
}

unfoldable pub put :
    (ℕ → Bytes → Option FullRangeId)
    → Transaction
    → Keyspace
    → (key val : Bytes) → KeyspaceInfo
    → Transaction × Result (Unit {0})
put oracle t keyspace key val info = elim (check_still_running t.state) [
  | some e ↦ (t, err e)
  | none ↦
      let (t', id) = resolve_full_record_key oracle t keyspace key info in
      write_range (put_in key val) t' id
]

unfoldable pub del :
    (ℕ → Bytes → Option FullRangeId)
    → Transaction
    → Keyspace
    → (key : Bytes) → KeyspaceInfo
    → Transaction × Result (Unit {0})
del oracle t keyspace key info = elim (check_still_running t.state) [
  | some e ↦ (t, err e)
  | none ↦
      let (t', id) = resolve_full_record_key oracle t keyspace key info in
      write_range (del_in key) t' id
]

-- The answer of a range to a read.
pub record GetResult : Type 0 where
  pub vals : List (Option Bytes)
  pub leader_sequence_number : ℤ

-- `vals.first().unwrap()`.
unfoldable pub first : List (Option Bytes) → Result (Option Bytes)
first [] = panics
first (v ∷ vs) = ok v

-- The leader that the transaction has seen first at a range, if it has seen one.
unfoldable pub note_leader : ℤ → ParticipantRange → ParticipantRange
note_leader current p =
    if not (same current invalid_leader_sequence_number) && p.leader_sequence_number == 0
    then record p { leader_sequence_number = to_u64 current }
    else p

-- `get` when the range has answered: it aborts if the leader is not the one seen first.
unfoldable pub get_answered :
    Transaction
    → Option Status
    → FullRangeId
    → Bytes
    → ParticipantRange
    → GetResult
    → Run (Option Bytes)
get_answered t row id key p r =
    let p' = note_leader r.leader_sequence_number p in
    let seen = record p' { readset = add bytes_discrete key p'.readset } in
    if same r.leader_sequence_number (to_i64 p'.leader_sequence_number)
    then returns (set_range t id seen) row (first r.vals)
    else record_abort (set_range t id p') row (err (transaction_aborted range_leadership_changed))

-- A request to the range that fails makes `unwrap` panic.
unfoldable pub get_remote :
    Transaction
    → Option Status
    → FullRangeId
    → Bytes
    → ParticipantRange
    → Option GetResult
    → Run (Option Bytes)
get_remote t row id key p none = returns t row panics
get_remote t row id key p (some r) = get_answered t row id key p r

-- The transaction's own writes come first, then its deletes, then the range.
unfoldable pub get_resolved :
    Transaction → Option Status → Bytes → Option GetResult → Result FullRangeId → Run (Option Bytes)
get_resolved t row key answer (err e) = returns t row (err e)
get_resolved t row key answer panics = returns t row panics
get_resolved t row key answer (ok id) =
    let p = get_participant_range t id in
    let t' = set_range t id p in
    elim (lookup bytes_discrete key p.writeset) [
      | some v ↦ returns t' row (ok (some v))
      | none ↦
          if contains bytes_discrete key p.deleteset
          then returns t' row (ok none)
          else let run = get_remote t' row id key p answer in
            record run { sent = (id, get_request key) ∷ run.sent }
    ]

unfoldable pub get :
    (ℕ → Bytes → Option FullRangeId)
    → Transaction
    → Option Status
    → Keyspace
    → Bytes
    → KeyspaceInfo
    → Option GetResult
    → Run (Option Bytes)
get oracle t row keyspace key info answer = elim (check_still_running t.state) [
  | some e ↦ returns t row (err e)
  | none ↦
      let (t', id) = resolve_full_record_key oracle t keyspace key info in
      get_resolved t' row key answer id
]
