-- ===== src/RangeServer/MemTable/RoundTrip.antt =====
-- A read after a write, and a write after a `clear`.
use atomix.Base.{
  ℕ, suc, ◌+◌, ◌-◌, ◌<◌, ◌≤◌, ◌≡◌, ◌≢◌, inl, inr, sym, ◌∙◌, ap, Option, some, none, arith, Bytes,
}
use mathlib.Core.Path.{subst}
use atomix.RangeServer.MemTable.Entries.{MemTableEntry, SkipList}
use atomix.RangeServer.MemTable.Ring.{back, next-eq, next-back, get_elem?}
use atomix.RangeServer.MemTable.Database.{
  MemTableDb, Written, stored, cache_is_full, panics, upsert_or_delete,
}
use atomix.RangeServer.MemTable.Database.Adds.{entry_of, deletes, Adds}
use atomix.RangeServer.MemTable.Database.Outcomes.{Keeps, upsert_or_delete-Keeps}
use atomix.RangeServer.MemTable.Chain.{Empties, IsRing, Stored}
use atomix.RangeServer.MemTable.Chain.Moves.{Empties-last}
use atomix.RangeServer.MemTable.Clear.{clear}
use atomix.RangeServer.MemTable.Clear.Outcome.{Clears, clear-Clears}
use atomix.RangeServer.MemTable.Reads.{get}
use atomix.RangeServer.MemTable.Reads.Latest.{Wanted, get-Answers, Stored-le}
use atomix.RangeServer.MemTable.Runs.{reply, some_inj}

module _ (sl : SkipList) where
  open sl use {Entries}

  added-reply :
      (db db' : MemTableDb Entries) (entry : MemTableEntry) (asked : Option ℕ)
      → IsRing sl db
      → db.latest_epoch ≤ entry.epoch
      → ((e : MemTableEntry) → Stored sl db e → e.key ≡ entry.key → e.epoch ≢ entry.epoch)
      → Adds sl db entry db'
      → Wanted sl entry.key asked entry
      → get sl db' entry.key asked ≡ reply asked entry
  added-reply db db' entry asked r late other (r', _, _, has, _, adds) w =
      elim (get-Answers sl db' r' entry.key asked) [
        | inl (_, nothing) ↦ absurd (nothing entry has w)
        | inr (e, (s, we, most), got) ↦ elim (adds e s) [
          | inl same ↦ got ∙ ap (reply asked) same
          | inr old ↦ absurd (
              other e old (wanted_key asked entry.key e we)
                (omega (arith, most entry has w, Stored-le sl db r e old, late)))
        ]
      ]
    where
      wanted_key :
          (asked : Option ℕ) (key : Bytes) (e : MemTableEntry) → Wanted sl key asked e → e.key ≡ key
      wanted_key none key e w = w
      wanted_key (some l) key e w = w.0

  -- In a database with the invariant of the ring, after a write that was stored, at an epoch that is not below the newest and that no stored entry
  -- of the key has, a read of the key at no epoch or at one not below that of the write returns the
  -- value and the epoch written, or no value after a delete.
  pub get-upsert_or_delete :
      (db db' : MemTableDb Entries) (key : Bytes) (epoch : ℕ) (val : Option Bytes)
      (called asked : Option ℕ)
      → IsRing sl db
      → db.latest_epoch ≤ epoch
      → ((e : MemTableEntry) → Stored sl db e → e.key ≡ key → e.epoch ≢ epoch)
      → upsert_or_delete sl db key epoch (deletes sl val) val ≡ stored db' called
      → Wanted sl key asked (entry_of sl key epoch val)
      → get sl db' key asked ≡ reply asked (entry_of sl key epoch val)
  get-upsert_or_delete db db' key epoch (some v) called asked r late other e w =
      added-reply db db' (entry_of sl key epoch (some v)) asked r late other
        (subst (Keeps sl db (entry_of sl key epoch (some v))) e
          (upsert_or_delete-Keeps sl db key epoch (some v) r late))
        w
  get-upsert_or_delete db db' key epoch none called asked r late other e w =
      added-reply db db' (entry_of sl key epoch none) asked r late other
        (subst (Keeps sl db (entry_of sl key epoch none)) e
          (upsert_or_delete-Keeps sl db key epoch none r late))
        w

  -- What a write is that was not refused.
  abbrev pub Succeeds : MemTableDb Entries → MemTableEntry → Written Entries → Type 0
  Succeeds db entry (stored db' called) = Adds sl db entry db'
  Succeeds db entry cache_is_full = ⊥
  Succeeds db entry panics = ⊥

  room :
      (db : MemTableDb Entries) (entry : MemTableEntry) (w : Written Entries)
      → db.mut_memtable_idx < db.num_write_buffers
      → 1 < db.num_write_buffers
      → Empties sl db.memtables db.mut_memtable_idx db.num_write_buffers db.latest_epoch
          (db.num_write_buffers - 1)
          1
      → Keeps sl db entry w
      → Succeeds db entry w
  room db entry (stored db' called) h several free k = k
  room db entry panics h several free k = k
  room db entry cache_is_full h several free (t, at, ne) =
      let m = db.mut_memtable_idx in
      let n = db.num_write_buffers in
      let b = next-back m n h (λ e. absurd (omega (arith, e, next-eq m n h))) in
      let count : n - 1 ≡ suc (n - 2) = omega (arith, several) in
      let slot : (n - 2) + 1 ≡ n - 1 = omega (arith, several) in
      let last =
        Empties-last sl db.memtables m n db.latest_epoch (n - 2) 1 t
          (subst (λ k. Empties sl db.memtables m n db.latest_epoch k 1) count free)
          (ap (λ k. get_elem? db.memtables (back m n k)) slot
            ∙ ap (get_elem? db.memtables) (sym b.1)
            ∙ at) in
      ne last.0

  -- In a database with the invariant of the ring and at least two buffers, after a `clear` at an epoch
  -- that is not below the newest, a write at an epoch that is not below the newest either is not refused:
  -- it is stored, the ring keeps its invariant, and nothing else is added or lost.
  pub upsert_or_delete-clear :
      (db db' : MemTableDb Entries) (cleared_to : ℕ) (key : Bytes) (epoch : ℕ) (val : Option Bytes)
      → IsRing sl db
      → 1 < db.num_write_buffers
      → db.latest_epoch ≤ cleared_to
      → db.latest_epoch ≤ epoch
      → clear sl db cleared_to ≡ some db'
      → Succeeds db'
          (entry_of sl key epoch val)
          (upsert_or_delete sl db' key epoch (deletes sl val) val)
  upsert_or_delete-clear db db' cleared_to key epoch val r several late new e =
      let (db'', e', c) = clear-Clears sl db cleared_to r in
      let same : db'' ≡ db' = some_inj sl db'' db' (sym e' ∙ e) in
      let (r', latest, size, _, _, free) = subst (Clears sl db cleared_to r) same c in
      room db' (entry_of sl key epoch val) (upsert_or_delete sl db' key epoch (deletes sl val) val)
        r'.0 (omega (arith, size, several)) (free late)
        (upsert_or_delete-Keeps sl db' key epoch val r' (omega (arith, latest, new)))
