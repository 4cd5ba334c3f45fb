-- ===== src/RangeServer/MemTable/Clear.antt =====
-- `clear` of rangeserver/src/cache/memtabledb.rs.
pub mod Slots
pub mod Keeps
pub mod Outcome
use atomix.Base.{ℕ, zero, suc, ◌+◌, ◌-◌, Option, none, some, List, ltb, leb, if◌then◌else◌}
use atomix.RangeServer.MemTable.Entries.{SkipList}
use atomix.RangeServer.MemTable.Ring.{back, get_elem?, set}
use atomix.RangeServer.MemTable.Database.{flushed, immutable, MemTable, MemTableDb}

module _ (sl : SkipList) where
  open sl use {Entries, empty}

  -- An immutable table with nothing newer than `epoch` is emptied.
  unfoldable pub flush_if : ℕ → MemTable Entries → MemTable Entries
  flush_if epoch t = elim t.status [
    | immutable ↦
        if leb t.latest_epoch epoch
        then record t { status = flushed; size_in_bytes = 0; entries = empty }
        else t
    | _ ↦ t
  ]

  unfoldable pub clear_loop :
      (mut_idx n epoch : ℕ) (count i : ℕ)
      → List (MemTable Entries)
      → Option (List (MemTable Entries))
  clear_loop m n epoch zero i ms = some ms
  clear_loop m n epoch (suc count) i ms = elim (get_elem? ms (back m n i)) [
    | none ↦ none
    | some t ↦ clear_loop m n epoch count (suc i) (set ms (back m n i) (flush_if epoch t))
  ]

  -- `none` for a panic.
  unfoldable pub clear : MemTableDb Entries → ℕ → Option (MemTableDb Entries)
  clear db epoch =
      if ltb db.mut_memtable_idx db.num_write_buffers
      then elim (clear_loop db.mut_memtable_idx db.num_write_buffers epoch
          (db.num_write_buffers - 1) 1 db.memtables) [
            | none ↦ none
            | some ms ↦ some (record db { memtables = ms })
          ]
      else none
