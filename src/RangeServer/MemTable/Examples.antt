-- ===== src/RangeServer/MemTable/Examples.antt =====
-- The database of memtables on concrete inputs, with plain lists as skip lists.
use atomix.Base.{
  ℕ, ◌≡◌, inl, inr, refl, ap, some, none, List, [], ◌∷◌, arith, bytes_lt, bytes_discrete, true,
  false,
}
use atomix.RangeServer.MemTable.Entries.{MemTableEntry, entry_lt}
use atomix.RangeServer.MemTable.Ring.{back}
use atomix.RangeServer.MemTable.Database.{
  flushed, mutable, immutable, MemTable, MemTableDb, stored, cache_is_full, new_tables, new,
  put_entry, switch, write_entry, upsert_or_delete, upsert,
}
use atomix.RangeServer.MemTable.Database.Adds.{entry_of}
use atomix.RangeServer.MemTable.Database.Outcomes.{Keeps, upsert_or_delete-Keeps}
use atomix.RangeServer.MemTable.Chain.{IsRing}
use atomix.RangeServer.MemTable.Clear.{flush_if, clear_loop, clear}
use atomix.RangeServer.MemTable.Clear.Outcome.{Clears, clear-Clears}
use atomix.RangeServer.MemTable.Reads.{ok, find, get_loop, answer, get}
use atomix.RangeServer.MemTable.Reads.Latest.{Answers, get-Answers, Stored-le}
use atomix.RangeServer.MemTable.Runs.{Run, started, wrote, Holds, Run-Holds, get-Run}
use atomix.RangeServer.MemTable.RoundTrip.{Succeeds, get-upsert_or_delete, upsert_or_delete-clear}
use atomix.RangeServer.MemTable.Plain.{plain}

abbrev Db : Type 0
Db = MemTableDb (List MemTableEntry)

-- The keys and values of the tests are of one byte, so that an entry has 11 bytes.
abbrev entry : (key val epoch : ℕ) → MemTableEntry
entry k v e = record { key = k ∷ []; val = v ∷ []; epoch = e; deleted = false }

abbrev table :
    (id size : ℕ) → List MemTableEntry → (oldest latest : ℕ) → MemTable (List MemTableEntry)
table i size es oldest latest = record {
  id = i;
  size_in_bytes = size;
  status = mutable;
  latest_epoch = latest;
  oldest_epoch = oldest;
  entries = es;
}

-- Two tables of 24 bytes: the first is full and immutable, the second has one entry.
abbrev two_tables : Db
two_tables = record {
  num_write_buffers = 2;
  write_buffer_size = 24;
  memtables =
      record (table 0 22 (entry 1 20 5 ∷ entry 1 10 3 ∷ []) 0 5) { status = immutable }
      ∷ table 1 11 (entry 2 30 7 ∷ []) 7 7
      ∷ [];
  mut_memtable_idx = 1;
  latest_epoch = 7;
  gc_callback = false;
}

two_tables-IsRing : IsRing plain two_tables
unfolding back
two_tables-IsRing = (
  omega arith,
  (
    table 1 11 (entry 2 30 7 ∷ []) 7 7,
    refl,
    refl,
    (
      omega arith,
      omega arith,
      λ e has. elim has [
        | inl same ↦ ground (arith, ap (λ (k : MemTableEntry). k.epoch) same)
        | inr end ↦ absurd end
      ],
    ),
    (
      record (table 0 22 (entry 1 20 5 ∷ entry 1 10 3 ∷ []) 0 5) { status = immutable },
      refl,
      inr (
        refl,
        (
          omega arith,
          omega arith,
          λ e has. elim has [
            | inl same ↦ ground (arith, ap (λ (k : MemTableEntry). k.epoch) same)
            | inr older ↦ elim older [
              | inl same ↦ ground (arith, ap (λ (k : MemTableEntry). k.epoch) same)
              | inr end ↦ absurd end
            ]
          ],
        ),
        tt,
      ),
    ),
  ),
)

get_test : get plain two_tables (1 ∷ []) (some 4) ≡ ok (some (10 ∷ [])) 3
unfolding get get_loop find answer back entry_lt bytes_lt bytes_discrete
get_test = refl

-- The entry fits.
write_test :
    upsert plain two_tables (1 ∷ []) (40 ∷ []) 8
    ≡ stored
        (put_entry plain two_tables (table 1 11 (entry 2 30 7 ∷ []) 7 7) (entry 1 40 8) 11)
        none
unfolding upsert upsert_or_delete write_entry switch put_entry
write_test = refl

-- The entry does not fit and the next table is not flushed.
full_test : upsert plain two_tables (1 ∷ 1 ∷ []) (40 ∷ 40 ∷ 40 ∷ []) 8 ≡ cache_is_full
unfolding upsert upsert_or_delete write_entry switch put_entry
full_test = refl

get-Answers_example :
    Answers plain two_tables two_tables-IsRing
      (1 ∷ [])
      (some 4)
      (get plain two_tables (1 ∷ []) (some 4))
get-Answers_example = get-Answers plain two_tables two_tables-IsRing (1 ∷ []) (some 4)

upsert_or_delete-Keeps_example :
    Keeps plain two_tables
      (entry_of plain (1 ∷ []) 8 none)
      (upsert_or_delete plain two_tables (1 ∷ []) 8 true none)
upsert_or_delete-Keeps_example =
    upsert_or_delete-Keeps plain two_tables (1 ∷ []) 8 none two_tables-IsRing (omega arith)

clear-Clears_example :
    (db' : Db) × (clear plain two_tables 5 ≡ some db')
    × Clears plain two_tables 5 two_tables-IsRing db'
clear-Clears_example = clear-Clears plain two_tables 5 two_tables-IsRing

-- The same after a `clear` at 7.
abbrev one_table : Db
one_table = record two_tables {
  memtables =
      record (table 0 0 [] 0 5) { status = flushed } ∷ table 1 11 (entry 2 30 7 ∷ []) 7 7 ∷ [];
}

cleared_test : clear plain two_tables 7 ≡ some one_table
unfolding clear clear_loop flush_if back
cleared_test = refl

upsert_or_delete-clear_example :
    Succeeds plain one_table
      (entry_of plain (1 ∷ 1 ∷ []) 8 (some (40 ∷ 40 ∷ 40 ∷ [])))
      (upsert_or_delete plain one_table (1 ∷ 1 ∷ []) 8 false (some (40 ∷ 40 ∷ 40 ∷ [])))
upsert_or_delete-clear_example =
    upsert_or_delete-clear plain two_tables one_table 7 (1 ∷ 1 ∷ []) 8 (some (40 ∷ 40 ∷ 40 ∷ []))
      two_tables-IsRing (omega arith) (omega arith) (omega arith) cleared_test

-- `two_tables` after a second write of key 2.
abbrev written : Db
written = record two_tables {
  memtables =
      record (table 0 22 (entry 1 20 5 ∷ entry 1 10 3 ∷ []) 0 5) { status = immutable }
      ∷ table 1 22 (entry 2 50 9 ∷ entry 2 30 7 ∷ []) 7 9
      ∷ [];
  latest_epoch = 9;
}

written_test :
    upsert_or_delete plain two_tables (2 ∷ []) 9 false (some (50 ∷ [])) ≡ stored written none
unfolding upsert_or_delete write_entry switch put_entry
written_test = refl

get-upsert_or_delete_example : get plain written (2 ∷ []) none ≡ ok (some (50 ∷ [])) 9
get-upsert_or_delete_example =
    get-upsert_or_delete plain two_tables written (2 ∷ []) 9 (some (50 ∷ [])) none none
      two_tables-IsRing (omega arith)
      (λ e s k same. absurd (omega (arith, Stored-le plain two_tables two_tables-IsRing e s)))
      written_test refl

-- A run from the start: a write at 3 and a delete at 4.
abbrev empty_db : Db
empty_db = record {
  num_write_buffers = 1;
  write_buffer_size = 100;
  memtables = table 0 0 [] 0 0 ∷ [];
  mut_memtable_idx = 0;
  latest_epoch = 0;
  gc_callback = false;
}

abbrev live : Db
live = record empty_db { memtables = table 0 11 (entry 1 20 3 ∷ []) 0 3 ∷ []; latest_epoch = 3 }

abbrev dead : Db
dead = record empty_db {
  memtables = table 0 21 (entry_of plain (1 ∷ []) 4 none ∷ entry 1 20 3 ∷ []) 0 4 ∷ [];
  latest_epoch = 4;
}

run : Run plain dead (entry_of plain (1 ∷ []) 4 none ∷ entry 1 20 3 ∷ []) 0
unfolding new new_tables upsert_or_delete write_entry switch put_entry
run =
    wrote (1 ∷ []) 4 none none (omega arith) refl
      (wrote (1 ∷ []) 3 (some (20 ∷ [])) none (omega arith) refl (started 1 100 (omega arith) refl))

Run-Holds_test : Holds plain dead (entry_of plain (1 ∷ []) 4 none ∷ entry 1 20 3 ∷ []) 0
Run-Holds_test = Run-Holds plain dead (entry_of plain (1 ∷ []) 4 none ∷ entry 1 20 3 ∷ []) 0 run

get-Run_example : get plain dead (1 ∷ []) none ≡ ok none 0
get-Run_example =
    get-Run plain dead (entry_of plain (1 ∷ []) 4 none ∷ entry 1 20 3 ∷ []) 0 none
      (entry_of plain (1 ∷ []) 4 none) run (inl refl) (omega arith) refl
      (λ e' l w. elim l [
        | inl same ↦ inl same
        | inr old ↦ elim old [
          | inl same ↦ inr (ground (arith, ap (λ (k : MemTableEntry). k.epoch) same))
          | inr end ↦ absurd end
        ]
      ])
