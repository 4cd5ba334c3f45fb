-- ===== src/RangeServer/MemTable/Database.antt =====
-- `MemTableDB`: the state and the writes of rangeserver/src/cache/memtabledb.rs on the ring of memtables. An
-- index out of range and a failed `assert!` are panics.
pub mod Writes
pub mod Adds
pub mod Outcomes
use atomix.Base.{
  ℕ, zero, suc, ◌+◌, ◌-◌, ◌%◌, Bool, true, false, Option, none, some, List, [], ◌∷◌, Bytes, ltb,
  if◌then◌else◌, max, u64_mod,
}
use atomix.RangeServer.MemTable.Entries.{MemTableEntry, SkipList}
use atomix.RangeServer.MemTable.Ring.{back, get_elem?, set}

pub data MemTableStatus : Type 0 where
  flushed mutable immutable : MemTableStatus

pub record MemTable (Entries : Type 0) : Type 0 where
  pub id : ℕ
  pub size_in_bytes : ℕ
  pub status : MemTableStatus
  pub latest_epoch : ℕ
  pub oldest_epoch : ℕ
  pub entries : Entries

-- Of the options the two numbers; of the callback whether it is registered.
pub record MemTableDb (Entries : Type 0) : Type 0 where
  pub num_write_buffers : ℕ
  pub write_buffer_size : ℕ
  pub memtables : List (MemTable Entries)
  pub mut_memtable_idx : ℕ
  pub latest_epoch : ℕ
  pub gc_callback : Bool

-- How a write ends: with the database and the epoch that the callback got, if it was called.
pub data Written (Entries : Type 0) : Type 0 where
  stored : MemTableDb Entries → Option ℕ → Written Entries
  cache_is_full panics : Written Entries

abbrev pub length {ℓ} : {A : Type ℓ} → List A → ℕ
length [] = 0
length (x ∷ xs) = suc (length xs)

module _ (sl : SkipList) where
  open sl use {Entries, empty, insert, lower_bound}

  -- The tables with the ids from `i` on, `count` of them.
  unfoldable pub new_tables : (count i : ℕ) → List (MemTable Entries)
  new_tables zero i = []
  new_tables (suc count) i =
      record {
        id = i;
        size_in_bytes = 0;
        status = flushed;
        latest_epoch = 0;
        oldest_epoch = 0;
        entries = empty;
      }
      ∷ new_tables count (suc i)

  -- `none` for the panic with no table at all.
  unfoldable pub new : (num_write_buffers write_buffer_size : ℕ) → Option (MemTableDb Entries)
  new n size = elim (get_elem? (new_tables n 0) 0) [
    | none ↦ none
    | some t ↦ some (record {
      num_write_buffers = n;
      write_buffer_size = size;
      memtables = set (new_tables n 0) 0 (record t { status = mutable });
      mut_memtable_idx = 0;
      latest_epoch = 0;
      gc_callback = false;
    })
  ]

  -- The entry goes to the active table `t`, which is at the index.
  unfoldable pub put_entry :
      MemTableDb Entries → MemTable Entries → MemTableEntry → ℕ → MemTableDb Entries
  put_entry db t entry entry_size = record db {
    memtables = set db.memtables db.mut_memtable_idx (record t {
      entries = insert entry t.entries;
      size_in_bytes = (t.size_in_bytes + entry_size) % u64_mod;
      latest_epoch = max t.latest_epoch entry.epoch;
    });
    latest_epoch = entry.epoch;
  }

  -- The next table of the ring becomes active if it is flushed, and the callback gets its epoch.
  unfoldable pub switch :
      MemTableDb Entries → MemTable Entries → MemTableEntry → ℕ → Written Entries
  switch db t entry entry_size =
      let old_id = db.mut_memtable_idx in
      let new_id = (db.mut_memtable_idx + 1) % db.num_write_buffers in
      elim (get_elem? db.memtables new_id) [
        | none ↦ panics
        | some t' ↦ elim t'.status [
          | flushed ↦
              let active = record t' { status = mutable; oldest_epoch = entry.epoch } in
              let memtables =
                set (set db.memtables new_id active) old_id (record t { status = immutable }) in
              stored
                (put_entry (record db { mut_memtable_idx = new_id; memtables = memtables }) active
                  entry entry_size)
                (if db.gc_callback then some t'.latest_epoch else none)
          | _ ↦ cache_is_full
        ]
      ]

  -- `size_of::<u64>() + size_of::<bool>()` is 9.
  unfoldable pub write_entry : MemTableDb Entries → MemTableEntry → Written Entries
  write_entry db entry = elim (get_elem? db.memtables db.mut_memtable_idx) [
    | none ↦ panics
    | some t ↦ elim t.status [
      | mutable ↦
          let entry_size = (length entry.key + length entry.val + 9) % u64_mod in
          if ltb db.write_buffer_size ((t.size_in_bytes + entry_size) % u64_mod)
          then switch db t entry entry_size
          else stored (put_entry db t entry entry_size) none
      | _ ↦ panics
    ]
  ]

  unfoldable pub upsert_or_delete :
      MemTableDb Entries
      → (key : Bytes) (epoch : ℕ) (deleted : Bool) (val : Option Bytes) → Written Entries
  upsert_or_delete db key epoch deleted (some v) =
      if ltb db.mut_memtable_idx db.num_write_buffers
      then write_entry db (record { key = key; val = v; epoch = epoch; deleted = deleted })
      else panics
  upsert_or_delete db key epoch true none =
      if ltb db.mut_memtable_idx db.num_write_buffers
      then write_entry db (record { key = key; val = []; epoch = epoch; deleted = true })
      else panics
  upsert_or_delete db key epoch false none = panics

  unfoldable pub upsert : MemTableDb Entries → (key val : Bytes) (epoch : ℕ) → Written Entries
  upsert db key val epoch = upsert_or_delete db key epoch false (some val)

  unfoldable pub delete : MemTableDb Entries → (key : Bytes) (epoch : ℕ) → Written Entries
  delete db key epoch = upsert_or_delete db key epoch true none

  unfoldable pub register_gc_callback : MemTableDb Entries → MemTableDb Entries
  register_gc_callback db = record db { gc_callback = true }
