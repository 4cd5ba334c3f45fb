-- ===== src/RangeServer/MemTable/Reads.antt =====
-- `get` of rangeserver/src/cache/memtabledb.rs.
pub mod Find
pub mod Newest
pub mod Latest
use atomix.Base.{
  ℕ, zero, suc, ◌+◌, Bool, true, false, Option, none, some, List, [], ◌∷◌, Bytes, ltb, leb,
  if◌then◌else◌, bytes_discrete, ite, min,
}
use atomix.RangeServer.MemTable.Entries.{MemTableEntry, SkipList}
use atomix.RangeServer.MemTable.Ring.{back, get_elem?}
use atomix.RangeServer.MemTable.Database.{flushed, MemTable, MemTableDb}

-- What the loop of `get` ends with.
pub data Search : Type 0 where
  found : MemTableEntry → Search
  missing panics : Search

pub data Got : Type 0 where
  ok : Option Bytes → ℕ → Got
  panics : Got

abbrev pub or_zero : Option ℕ → ℕ
or_zero none = 0
or_zero (some e) = e

unfoldable pub answer : Option ℕ → Search → Got
answer epoch missing = ok none (or_zero epoch)
answer epoch panics = panics
answer epoch (found e) = if e.deleted then ok none (or_zero epoch) else ok (some e.val) e.epoch

module _ (sl : SkipList) where
  open sl use {Entries, lower_bound}

  -- The newest entry of the key in one table that is no newer than `epoch`.
  unfoldable pub find : Entries → Bytes → ℕ → Option MemTableEntry
  find s key epoch =
      elim (lower_bound (record { key = key; val = []; epoch = epoch; deleted = false }) s) [
        | none ↦ none
        | some e ↦ ite (bytes_discrete e.key key) (some e) none
      ]

  -- The rounds `i`, `i + 1`, ... of the loop, `count` of them.
  unfoldable pub get_loop :
      List (MemTable Entries) → (mut_idx n : ℕ) → Bytes → (epoch : ℕ) (count i : ℕ) → Search
  get_loop ms m n key epoch zero i = missing
  get_loop ms m n key epoch (suc count) i =
      let rest = get_loop ms m n key epoch count (suc i) in
      elim (get_elem? ms (back m n i)) [
        | none ↦ panics
        | some t ↦ elim t.status [
          | flushed ↦ missing
          | _ ↦
              if leb t.oldest_epoch epoch
              then elim (find t.entries key epoch) [ none ↦ rest | some e ↦ found e ]
              else rest
        ]
      ]

  abbrev pub epoch_internal : MemTableDb Entries → Option ℕ → ℕ
  epoch_internal db none = db.latest_epoch
  epoch_internal db (some e) = min e db.latest_epoch

  unfoldable pub get : MemTableDb Entries → Bytes → Option ℕ → Got
  get db key epoch =
      if ltb db.mut_memtable_idx db.num_write_buffers
      then answer epoch (
          get_loop db.memtables db.mut_memtable_idx db.num_write_buffers key
            (epoch_internal db epoch) db.num_write_buffers 0)
      else panics
