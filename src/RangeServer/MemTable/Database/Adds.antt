-- ===== src/RangeServer/MemTable/Database/Adds.antt =====
-- A database with one more entry.
use atomix.Base.{
  [], Bytes, ℕ, ◌<◌, ◌≡◌, ◌⊎◌, inl, inr, sym, Option, some, none, List, Bool, true, false,
}
use mathlib.Core.Path.{subst}
use atomix.RangeServer.MemTable.Entries.{MemTableEntry, SkipList}
use atomix.RangeServer.MemTable.Ring.{get_elem?, get_elem?-set_self, set}
use atomix.RangeServer.MemTable.Database.{MemTableDb}
use atomix.RangeServer.MemTable.Chain.{Table, IsRing, StoredIn, Stored}
use atomix.RangeServer.MemTable.Chain.Contents.{StoredIn-set, of_StoredIn-set, StoredIn-at}
use atomix.RangeServer.MemTable.Database.Writes.{added}

module _ (sl : SkipList) where
  open sl use {Entries, Has, insert, has-insert, has-insert_other, of_has-insert}

  -- The entry of an `upsert` or of a `delete`, which has no value.
  abbrev pub entry_of : Bytes → ℕ → Option Bytes → MemTableEntry
  entry_of key epoch (some v) = record { key = key; val = v; epoch = epoch; deleted = false }
  entry_of key epoch none = record { key = key; val = []; epoch = epoch; deleted = true }

  abbrev pub deletes : Option Bytes → Bool
  deletes (some v) = false
  deletes none = true

  -- The new database has what the old one had, and the entry.
  abbrev pub Adds : MemTableDb Entries → MemTableEntry → MemTableDb Entries → Type 0
  Adds db entry db' =
      IsRing sl db'
      × (db'.latest_epoch ≡ entry.epoch)
      × (db'.num_write_buffers ≡ db.num_write_buffers)
      × Stored sl db' entry
      × ((e : MemTableEntry) → Stored sl db e → Stored sl db' e)
      × ((e : MemTableEntry) → Stored sl db' e → (e ≡ entry) ⊎ Stored sl db e)

  -- The same for the entries alone.
  abbrev pub Puts : List (Table sl) → ℕ → MemTableEntry → List (Table sl) → Type 0
  Puts ms n entry ms' =
      StoredIn sl ms' n entry
      × ((e : MemTableEntry) → StoredIn sl ms n e → StoredIn sl ms' n e)
      × ((e : MemTableEntry) → StoredIn sl ms' n e → (e ≡ entry) ⊎ StoredIn sl ms n e)

  pub put-Puts :
      (ms : List (Table sl)) (n i : ℕ) (t : Table sl) (entry : MemTableEntry) (entry_size : ℕ)
      → i < n
      → get_elem? ms i ≡ some t
      → Puts ms n entry (set ms i (added sl t entry entry_size))
  put-Puts ms n i t entry entry_size h at = (
    (
      i,
      h,
      (
        added sl t entry entry_size,
        get_elem?-set_self ms i (added sl t entry entry_size) t at,
        has-insert entry t.entries,
      ),
    ),
    λ e s.
        StoredIn-set sl ms n i t (added sl t entry entry_size) at e
          (has-insert_other entry e t.entries) s,
    λ e s. elim (of_StoredIn-set sl ms n i t (added sl t entry entry_size) at e s) [
      | inl has ↦ elim (of_has-insert entry e t.entries has) [
        | inl same ↦ inl same
        | inr old ↦ inr (StoredIn-at sl ms n i t t at e h old)
      ]
      | inr other ↦ inr other
    ],
  )

  -- A write of the status or the epochs of a table moves no entry.
  pub relabel :
      (ms : List (Table sl)) (n i : ℕ) (t u : Table sl)
      → i < n
      → get_elem? ms i ≡ some t
      → t.entries ≡ u.entries
      → (e : MemTableEntry)
      → (StoredIn sl ms n e → StoredIn sl (set ms i u) n e)
        × (StoredIn sl (set ms i u) n e → StoredIn sl ms n e)
  relabel ms n i t u h at same e = (
    StoredIn-set sl ms n i t u at e (subst (λ s. Has s e) same),
    λ s. elim (of_StoredIn-set sl ms n i t u at e s) [
      | inl has ↦ StoredIn-at sl ms n i t t at e h (subst (λ s. Has s e) (sym same) has)
      | inr other ↦ other
    ],
  )
