-- ===== src/RangeServer/MemTable/Database/Writes.antt =====
-- Writes keep the invariant of the ring.
use atomix.Base.{
  ℕ, suc, ◌+◌, ◌-◌, ◌%◌, ◌<◌, ◌≤◌, ◌≡◌, ◌≢◌, inl, inr, refl, sym, ◌∙◌, ap, some, List, arith, max,
  u64_mod,
}
use mathlib.Core.Path.{subst}
use atomix.RangeServer.MemTable.Entries.{MemTableEntry, SkipList}
use atomix.RangeServer.MemTable.Ring.{
  back, back-zero, back-inj, back-next, next-back, get_elem?, set, get_elem?-set_ne,
  get_elem?-set_self,
}
use atomix.RangeServer.MemTable.Database.{flushed, mutable, immutable, MemTableDb, put_entry}
use atomix.RangeServer.MemTable.Chain.{Table, IsFlat, IsHeld, Chain, IsRing}
use atomix.RangeServer.MemTable.Chain.Moves.{Chain-Same, Chain-init, Chain-last}

module _ (sl : SkipList) where
  open sl use {Entries, Has, insert, of_has-insert}

  -- The table `t` with one more entry.
  abbrev pub added : Table sl → MemTableEntry → ℕ → Table sl
  added t entry entry_size = record t {
    entries = insert entry t.entries;
    size_in_bytes = (t.size_in_bytes + entry_size) % u64_mod;
    latest_epoch = max t.latest_epoch entry.epoch;
  }

  added-IsHeld :
      (t : Table sl) (entry : MemTableEntry) (entry_size : ℕ)
      → t.oldest_epoch ≤ entry.epoch
      → t.latest_epoch ≤ entry.epoch
      → ((e : MemTableEntry)
          → Has t.entries e
          → (t.oldest_epoch ≤ e.epoch) × (e.epoch ≤ t.latest_epoch))
      → IsHeld sl entry.epoch (added t entry entry_size)
  added-IsHeld t entry entry_size old late within = (
    ground arith,
    ground arith,
    λ e has. elim (of_has-insert entry e t.entries has) [
      | inl same ↦ ground (arith, ap (λ (k : MemTableEntry). k.epoch) same)
      | inr before ↦ ground (arith, within e before)
    ],
  )

  -- The active slot is none of those behind it.
  behind : (m n j : ℕ) → m < n → j + 1 < n → m ≢ back m n (j + 1)
  behind m n j h u e =
      absurd (omega (arith, back-inj m n 0 (j + 1) h (omega arith) u (back-zero m n h ∙ e)))

  -- An active table that takes an entry, in front of a chain.
  pub put_entry-IsRing :
      (db : MemTableDb Entries) (t : Table sl) (entry : MemTableEntry) (entry_size : ℕ)
      → db.mut_memtable_idx < db.num_write_buffers
      → get_elem? db.memtables db.mut_memtable_idx ≡ some t
      → t.status ≡ mutable
      → t.oldest_epoch ≤ entry.epoch
      → t.latest_epoch ≤ entry.epoch
      → ((e : MemTableEntry)
          → Has t.entries e
          → (t.oldest_epoch ≤ e.epoch) × (e.epoch ≤ t.latest_epoch))
      → Chain sl db.memtables db.mut_memtable_idx db.num_write_buffers db.latest_epoch
          t.oldest_epoch
          (db.num_write_buffers - 1)
          1
      → db.latest_epoch ≤ entry.epoch
      → IsRing sl (put_entry sl db t entry entry_size)
  unfolding put_entry
  put_entry-IsRing db t entry entry_size h at st old late within c new = (
    h,
    (
      added t entry entry_size,
      get_elem?-set_self db.memtables db.mut_memtable_idx (added t entry entry_size) t at,
      st,
      added-IsHeld t entry entry_size old late within,
      Chain-Same sl db.memtables (set db.memtables db.mut_memtable_idx (added t entry entry_size))
          db.mut_memtable_idx db.mut_memtable_idx db.num_write_buffers db.latest_epoch entry.epoch
          new t.oldest_epoch (db.num_write_buffers - 1) 1 1
          (λ j u.
            get_elem?-set_ne db.memtables db.mut_memtable_idx
              (back db.mut_memtable_idx db.num_write_buffers (j + 1)) (added t entry entry_size)
              (behind db.mut_memtable_idx db.num_write_buffers j h (omega arith)))
          c,
    ),
  )

  -- The database after the ring has turned, before the entry goes in.
  abbrev pub turned : MemTableDb Entries → Table sl → Table sl → MemTableEntry → MemTableDb Entries
  turned db t t' entry =
      let new_id = (db.mut_memtable_idx + 1) % db.num_write_buffers in
      record db {
        mut_memtable_idx = new_id;
        memtables =
            set
              (set db.memtables new_id (record t' { status = mutable; oldest_epoch = entry.epoch }))
              db.mut_memtable_idx (record t { status = immutable });
      }

  module _ (ms : List (Table sl)) (m n latest epoch : ℕ) (t t' : Table sl) (h : m < n)
      (at : get_elem? ms m ≡ some t) (st : t.status ≡ mutable)
      (at' : get_elem? ms ((m + 1) % n) ≡ some t') (free : t'.status ≡ flushed)
      (held : IsHeld sl latest t) (c : Chain sl ms m n latest t.oldest_epoch (n - 1) 1)
      (new : latest ≤ epoch) where
    abbrev pub after : List (Table sl)
    after =
        set (set ms ((m + 1) % n) (record t' { status = mutable; oldest_epoch = epoch })) m
          (record t { status = immutable })

    -- The next slot is another one.
    pub next-ne : m ≢ (m + 1) % n
    next-ne e =
        let same : t ≡ t' = cc in
        absurd (ground (arith, st, free, ap (λ (k : Table sl). k.status) same))

    several : 1 < n
    several = (next-back m n h next-ne).0

    next-eq_last : (m + 1) % n ≡ back m n (n - 1)
    next-eq_last = (next-back m n h next-ne).1

    after-old : get_elem? after m ≡ some (record t { status = immutable })
    after-old =
        get_elem?-set_self
          (set ms ((m + 1) % n) (record t' { status = mutable; oldest_epoch = epoch })) m
          (record t { status = immutable }) t
          (get_elem?-set_ne ms ((m + 1) % n) m
              (record t' { status = mutable; oldest_epoch = epoch }) (λ e. next-ne (sym e))
            ∙ at)

    pub after-new :
        get_elem? after ((m + 1) % n) ≡ some (record t' { status = mutable; oldest_epoch = epoch })
    after-new =
        get_elem?-set_ne
          (set ms ((m + 1) % n) (record t' { status = mutable; oldest_epoch = epoch })) m
          ((m + 1) % n) (record t { status = immutable }) next-ne
        ∙ get_elem?-set_self ms ((m + 1) % n) (record t' { status = mutable; oldest_epoch = epoch })
            t' at'

    after-behind :
        (j : ℕ) → j + 2 < n → get_elem? after (back m n (j + 1)) ≡ get_elem? ms (back m n (j + 1))
    after-behind j u =
        get_elem?-set_ne
          (set ms ((m + 1) % n) (record t' { status = mutable; oldest_epoch = epoch })) m
          (back m n (j + 1)) (record t { status = immutable }) (behind m n j h (omega arith))
        ∙ get_elem?-set_ne ms ((m + 1) % n) (back m n (j + 1))
            (record t' { status = mutable; oldest_epoch = epoch })
            (λ e. absurd (
              omega (
                arith,
                back-inj m n (n - 1) (j + 1) h (omega arith) (omega arith) (sym next-eq_last ∙ e),
              )))

    front : n - 1 ≡ suc (n - 2)
    front = omega (arith, several)

    moved :
        (j : ℕ)
        → j < n - 2
        → get_elem? after (back ((m + 1) % n) n (j + 2)) ≡ get_elem? ms (back m n (j + 1))
    moved j u =
        let e : j + 2 ≡ (j + 1) + 1 = omega arith in
        ap (λ k. get_elem? after (back ((m + 1) % n) n k)) e
        ∙ ap (get_elem? after) (back-next m n (j + 1) h (omega arith))
        ∙ after-behind j (omega arith)

    moved_first : get_elem? after (back ((m + 1) % n) n 1) ≡ some (record t { status = immutable })
    moved_first = ap (get_elem? after) (back-next m n 0 h several ∙ back-zero m n h) ∙ after-old

    -- The chain behind the new active table.
    pub turned-Chain : Chain sl after ((m + 1) % n) n latest epoch (n - 1) 1
    turned-Chain =
        subst (λ k. Chain sl after ((m + 1) % n) n latest epoch k 1) (sym front)
          (
            record t { status = immutable },
            moved_first,
            inr (
              refl,
              (held.0, omega (arith, held.1), held.2),
              Chain-Same sl ms after m ((m + 1) % n) n latest latest (omega arith) t.oldest_epoch
                  (n - 2) 1 2 moved
                  (Chain-init sl ms m n latest t.oldest_epoch (n - 2) 1
                    (subst (λ k. Chain sl ms m n latest t.oldest_epoch k 1) front c)),
            ),
          )

    pub next-IsFlat : IsFlat sl latest t'
    next-IsFlat =
        let e : (n - 2) + 1 ≡ n - 1 = omega (arith, several) in
        Chain-last sl ms m n latest t.oldest_epoch (n - 2) 1 t'
          (subst (λ k. Chain sl ms m n latest t.oldest_epoch k 1) front c)
          (ap (λ k. get_elem? ms (back m n k)) e ∙ ap (get_elem? ms) (sym next-eq_last) ∙ at') free
