-- ===== src/RangeServer/MemTable/Chain.antt =====
-- The invariant of the ring: from the active table backwards the immutable ones, each older than the
-- one before it, and behind them flushed ones, which are empty.
pub mod Moves
pub mod Contents
use atomix.Base.{
  ℕ, zero, suc, ◌+◌, ◌-◌, ◌<◌, ◌≤◌, ◌≡◌, ◌≢◌, ◌⊎◌, inl, inr, refl, Option, some, List, arith,
  ℕ_discrete,
}
use mathlib.Core.Path.{subst}
use atomix.RangeServer.MemTable.Entries.{MemTableEntry, SkipList}
use atomix.RangeServer.MemTable.Ring.{back, get_elem?, set}
use atomix.RangeServer.MemTable.Database.{flushed, mutable, immutable, MemTable, MemTableDb}

module _ (sl : SkipList) where
  open sl use {Entries, Has}

  abbrev pub Table : Type 0
  Table = MemTable Entries

  abbrev pub IsFlat : ℕ → Table → Type 0
  IsFlat latest t =
      (t.status ≡ flushed) × ((e : MemTableEntry) → ¬ Has t.entries e) × (t.latest_epoch ≤ latest)

  -- The epochs of the entries lie between those of the table, and none is above the bound.
  abbrev pub IsHeld : ℕ → Table → Type 0
  IsHeld bound t =
      (t.oldest_epoch ≤ t.latest_epoch)
      × (t.latest_epoch ≤ bound)
      × ((e : MemTableEntry)
          → Has t.entries e
          → (t.oldest_epoch ≤ e.epoch) × (e.epoch ≤ t.latest_epoch))

  module _ (ms : List Table) (m n latest : ℕ) where
    -- `count` flushed slots from the `i`-th behind the active one.
    abbrev pub Empties : (count i : ℕ) → Type 0
    Empties zero i = Unit {0}
    Empties (suc count) i =
        (t : Table) × (get_elem? ms (back m n i) ≡ some t) × IsFlat latest t × Empties count (suc i)

    abbrev pub Chain : (bound count i : ℕ) → Type 0
    Chain bound zero i = Unit {0}
    Chain bound (suc count) i =
        (t : Table) × (get_elem? ms (back m n i) ≡ some t)
        × ((IsFlat latest t × Empties count (suc i))
            ⊎ ((t.status ≡ immutable) × IsHeld bound t × Chain t.oldest_epoch count (suc i)))

    -- An entry in one of the `count` slots from the `i`-th on.
    abbrev pub InSlots : (count i : ℕ) → MemTableEntry → Type 0
    InSlots count i e =
        (j : ℕ) × (i ≤ j)
        × (j < i + count)
        × ((t : Table) × (get_elem? ms (back m n j) ≡ some t) × Has t.entries e)

    pub InSlots-split :
        (count i : ℕ) (t : Table) (e : MemTableEntry)
        → get_elem? ms (back m n i) ≡ some t
        → InSlots (suc count) i e
        → Has t.entries e ⊎ InSlots count (suc i) e
    InSlots-split count i t e at (j, l, u, (t', at', has)) = elim (ℕ_discrete i j) [
      | yes here ↦ inl (let same : t' ≡ t = cc in subst (λ (u : Table). Has u.entries e) same has)
      | no later ↦ inr (j, omega arith, omega arith, (t', at', has))
    ]

    pub not-InSlots : (count i : ℕ) (e : MemTableEntry) → Empties count i → ¬ InSlots count i e
    not-InSlots zero i e c (j, l, u, _) = absurd (omega arith)
    not-InSlots (suc count) i e (t, at, flat, rest) s = elim (InSlots-split count i t e at s) [
      | inl has ↦ flat.1 e has
      | inr later ↦ not-InSlots count (suc i) e rest later
    ]

    pub InSlots-le :
        (bound count i : ℕ) (e : MemTableEntry)
        → Chain bound count i
        → InSlots count i e
        → e.epoch ≤ bound
    InSlots-le bound zero i e c (j, l, u, _) = absurd (omega arith)
    InSlots-le bound (suc count) i e (t, at, inl (flat, rest)) s =
        absurd (not-InSlots (suc count) i e (t, at, flat, rest) s)
    InSlots-le bound (suc count) i e (t, at, inr (st, held, rest)) s =
        elim (InSlots-split count i t e at s) [
          | inl has ↦ omega (arith, held.2 e has)
          | inr later ↦ omega (arith, InSlots-le t.oldest_epoch count (suc i) e rest later)
        ]

    -- The entries of an immutable table are not newer than its newest epoch.
    pub immutable-le :
        (bound count i j : ℕ) (t : Table) (e : MemTableEntry)
        → Chain bound count i
        → i ≤ j
        → j < i + count
        → get_elem? ms (back m n j) ≡ some t
        → t.status ≡ immutable
        → Has t.entries e
        → e.epoch ≤ t.latest_epoch
    immutable-le bound zero i j t e c l u at imm has = absurd (omega arith)
    immutable-le bound (suc count) i j t e (t', at', inl (flat, rest)) l u at imm has =
        absurd (not-InSlots (suc count) i e (t', at', flat, rest) (j, l, u, (t, at, has)))
    immutable-le bound (suc count) i j t e (t', at', inr (st, held, rest)) l u at imm has =
        elim (ℕ_discrete i j) [
          | yes here ↦
              let at'' : get_elem? ms (back m n j) ≡ some t' =
                subst (λ k. get_elem? ms (back m n k) ≡ some t') here at' in
              let same : t' ≡ t = cc in ((subst (IsHeld bound) same held).2 e has).1
          | no later ↦
              immutable-le t'.oldest_epoch count (suc i) j t e rest (omega arith) (omega arith) at
                imm has
        ]

  -- The invariant of a database.
  abbrev pub IsRing : MemTableDb Entries → Type 0
  IsRing db =
      (db.mut_memtable_idx < db.num_write_buffers)
      × ((t : Table) × (get_elem? db.memtables db.mut_memtable_idx ≡ some t)
          × (t.status ≡ mutable)
          × IsHeld db.latest_epoch t
          × Chain db.memtables db.mut_memtable_idx db.num_write_buffers db.latest_epoch
              t.oldest_epoch (db.num_write_buffers - 1) 1)

  -- Some of the first `n` tables has the entry.
  abbrev pub StoredIn : List Table → ℕ → MemTableEntry → Type 0
  StoredIn ms n e = (j : ℕ) × (j < n) × ((t : Table) × (get_elem? ms j ≡ some t) × Has t.entries e)

  -- Some table of the database has the entry.
  abbrev pub Stored : MemTableDb Entries → MemTableEntry → Type 0
  Stored db e = StoredIn db.memtables db.num_write_buffers e
