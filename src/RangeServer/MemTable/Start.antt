-- ===== src/RangeServer/MemTable/Start.antt =====
-- The database that `new` makes.
use atomix.Base.{
  ℕ, zero, suc, ◌+◌, ◌-◌, ◌<◌, ◌≤◌, ◌≡◌, inl, refl, ◌∙◌, ap, some, List, arith, false,
}
use mathlib.Core.Path.{subst}
use atomix.RangeServer.MemTable.Entries.{MemTableEntry, SkipList}
use atomix.RangeServer.MemTable.Ring.{
  back, back-lt, back-zero, back-inj, get_elem?, set, get_elem?-set_ne, get_elem?-set_self,
}
use atomix.RangeServer.MemTable.Database.{flushed, mutable, MemTableDb, new_tables, new}
use atomix.RangeServer.MemTable.Chain.{Table, IsFlat, Empties, Chain, IsRing, Stored}

module _ (sl : SkipList) where
  open sl use {Entries, Has, empty, not_has-empty}

  fresh : ℕ → Table sl
  fresh i = record {
    id = i;
    size_in_bytes = 0;
    status = flushed;
    latest_epoch = 0;
    oldest_epoch = 0;
    entries = empty;
  }

  fresh-IsFlat : (i : ℕ) → IsFlat sl 0 (fresh i)
  unfolding fresh
  fresh-IsFlat i = (refl, not_has-empty, omega arith)

  get_elem?-new_tables :
      (count i j : ℕ) → j < count → get_elem? (new_tables sl count i) j ≡ some (fresh (i + j))
  unfolding new_tables fresh
  get_elem?-new_tables zero i j h = absurd (omega arith)
  get_elem?-new_tables (suc count) i zero h =
      let e : i ≡ i + 0 = omega arith in ap (λ k. some (fresh k)) e
  get_elem?-new_tables (suc count) i (suc j) h =
      let e : suc i + j ≡ i + suc j = omega arith in
      get_elem?-new_tables count (suc i) j (omega arith) ∙ ap (λ k. some (fresh k)) e

  module _ (n : ℕ) (several : 0 < n) where
    started : List (Table sl)
    started = set (new_tables sl n 0) 0 (record (fresh 0) { status = mutable })

    started-behind :
        (j : ℕ) → 0 < j → j < n → get_elem? started (back 0 n j) ≡ some (fresh (0 + back 0 n j))
    unfolding started
    started-behind j p q =
        get_elem?-set_ne (new_tables sl n 0) 0 (back 0 n j) (record (fresh 0) { status = mutable })
          (λ e.
            absurd (omega (arith, back-inj 0 n 0 j several several q (back-zero 0 n several ∙ e))))
        ∙ get_elem?-new_tables n 0 (back 0 n j) (back-lt 0 n j several)

    started-Empties : (count i : ℕ) → 0 < i → i + count ≤ n → Empties sl started 0 n 0 count i
    started-Empties zero i p q = tt
    started-Empties (suc count) i p q = (
      fresh (0 + back 0 n i),
      started-behind i p (omega arith),
      fresh-IsFlat (0 + back 0 n i),
      started-Empties count (suc i) (omega arith) (omega arith),
    )

    started-Chain : (count i : ℕ) → 0 < i → i + count ≤ n → Chain sl started 0 n 0 0 count i
    started-Chain zero i p q = tt
    started-Chain (suc count) i p q =
        let (t, at, flat, rest) = started-Empties (suc count) i p q in (t, at, inl (flat, rest))

    started-none :
        (e : MemTableEntry) (j : ℕ) (t : Table sl)
        → j < n
        → get_elem? started j ≡ some t
        → ¬ Has t.entries e
    unfolding started fresh
    started-none e zero t h at has =
        let first : get_elem? started 0 ≡ some (record (fresh 0) { status = mutable }) =
          get_elem?-set_self (new_tables sl n 0) 0 (record (fresh 0) { status = mutable }) (fresh 0)
            (get_elem?-new_tables n 0 0 several) in
        let same : t ≡ record (fresh 0) { status = mutable } = cc in
        not_has-empty e (subst (λ (k : Table sl). Has k.entries e) same has)
    started-none e (suc j) t h at has =
        let other : get_elem? started (suc j) ≡ some (fresh (0 + suc j)) =
          get_elem?-set_ne (new_tables sl n 0) 0 (suc j) (record (fresh 0) { status = mutable })
            (λ p. absurd (omega (arith, p)))
          ∙ get_elem?-new_tables n 0 (suc j) h in
        let same : t ≡ fresh (0 + suc j) = cc in
        not_has-empty e (subst (λ (k : Table sl). Has k.entries e) same has)

    -- With at least one buffer `new` does not panic, and gives an empty ring.
    pub new-IsRing :
        (size : ℕ)
        → (db : MemTableDb Entries) × (new sl n size ≡ some db)
          × IsRing sl db
          × ((e : MemTableEntry) → ¬ Stored sl db e)
    unfolding new started fresh
    new-IsRing size =
        let first = get_elem?-new_tables n 0 0 several in
        (
          record {
            num_write_buffers = n;
            write_buffer_size = size;
            memtables = started;
            mut_memtable_idx = 0;
            latest_epoch = 0;
            gc_callback = false;
          },
          rw (new, first),
          (
            several,
            (
              record (fresh 0) { status = mutable },
              get_elem?-set_self (new_tables sl n 0) 0 (record (fresh 0) { status = mutable })
                  (fresh 0) first,
              refl,
              (omega arith, omega arith, λ e has. absurd (not_has-empty e has)),
              started-Chain (n - 1) 1 (omega arith) (omega arith),
            ),
          ),
          λ e s. started-none e s.0 s.2.0 s.1 s.2.1 s.2.2,
        )
