-- ===== src/RangeServer/Wal/Examples.antt =====
-- The log with two clients: the second has not seen the last append of the first.
use atomix.Base.{ℕ, ◌≡◌, ◌≢◌, ◌⊎◌, refl, true, false, some, [], ◌∷◌, arith, ite, ℕ_discrete, lookup}
use atomix.RangeServer.Wal.{
  Entry, Table, LogState, not_synced, synced, answered, carried_out, ok, err_not_synced,
  append_batch, has_entry, end_append, append_entry, trim_before_offset, trim_from, send_trim, sync,
  trim_batch, drop_before, i64_lt,
}
use atomix.RangeServer.Wal.Extends.{IsLog, Extends}
use atomix.RangeServer.Wal.Appends.{append_entry-ok}
use atomix.RangeServer.Wal.Histories.{Reach, here, next, appends, trims, Reach-Extends}

abbrev entry : ℕ → Entry
entry n = record { content = n ∷ []; write_id = n }

abbrev log : Table
log = record { first_offset = some 0; next_offset = 2; entries = (0, entry 5) ∷ (1, entry 6) ∷ [] }

log-IsLog : IsLog log
unfolding lookup ℕ_discrete
log-IsLog = (omega arith, λ k e at. ground (arith, at))

abbrev behind : LogState
behind = record { first_offset = some 0; next_offset = 1 }

-- The second client is told to sync.
behind_test : (append_entry (synced behind) log (7 ∷ []) 7 answered true).result ≡ err_not_synced
unfolding append_entry append_batch end_append has_entry lookup ℕ_discrete
behind_test = refl

fresh : has_entry log 2 7 ≡ false
unfolding has_entry lookup ℕ_discrete
fresh = refl

abbrev current : LogState
current = record { first_offset = some 0; next_offset = 2 }

append_entry-ok_example :
    let o = append_entry (synced current) log (7 ∷ []) 7 answered true in
    ((2 ≡ log.next_offset)
      × (o.result ≡ ok)
      × (o.table.first_offset ≡ some 0)
      × (o.table.next_offset ≡ 3)
      × ((k : ℕ)
          → lookup ℕ_discrete k o.table.entries
            ≡ ite (ℕ_discrete k 2) (some (entry 7)) (lookup ℕ_discrete k log.entries))
      × (o.state ≡ synced (record { first_offset = some 0; next_offset = 3 })))
    ⊎ ((2 ≢ log.next_offset)
        × (o.result ≡ err_not_synced)
        × (o.table ≡ log)
        × (o.state ≡ not_synced))
append_entry-ok_example = append_entry-ok current log (7 ∷ []) 7 (omega arith) fresh

-- No entry is below a bound with the sign bit, so a trim before it drops none.
trim_far_test :
    (trim_before_offset (synced current) log 0x8000_0000_0000_0000 answered true).table.entries
    ≡ log.entries
unfolding trim_before_offset trim_from send_trim sync trim_batch drop_before i64_lt
trim_far_test = refl

-- An append whose answer is lost, and a trim.
abbrev appended : Table
appended = (append_entry (synced current) log (7 ∷ []) 7 carried_out true).table

history : Reach log 1 (trim_before_offset (synced current) appended 1 answered true).table
history =
    next (next here (appends (synced current) log (7 ∷ []) 7 carried_out true (omega arith)))
      (trims (synced current) appended 1 answered true)

Reach-Extends_example :
    Extends 1 log (trim_before_offset (synced current) appended 1 answered true).table
Reach-Extends_example = Reach-Extends history log-IsLog
