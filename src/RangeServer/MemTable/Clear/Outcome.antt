-- ===== src/RangeServer/MemTable/Clear/Outcome.antt =====
-- What `clear` does to a database.
use atomix.Base.{
  ℕ, ◌-◌, ◌<◌, ◌≤◌, ◌≡◌, ◌⊎◌, inl, inr, refl, sym, ◌∙◌, ap, some, List, arith, ℕ_discrete,
}
use mathlib.Core.Path.{subst}
use atomix.RangeServer.MemTable.Entries.{MemTableEntry, SkipList}
use atomix.RangeServer.MemTable.Ring.{back, back-lt, back-zero, back-back, get_elem?}
use atomix.RangeServer.MemTable.Database.{MemTableDb}
use atomix.RangeServer.MemTable.Chain.{Table, Empties, immutable-le, IsRing, Stored}
use atomix.RangeServer.MemTable.Clear.{flush_if, clear}
use atomix.RangeServer.MemTable.Clear.Slots.{Flushes, Slots, clear_loop-Flushes, Chain-Slots}
use atomix.RangeServer.MemTable.Clear.Keeps.{
  Flushed, Chain-Flushed, Chain-Flushed_all, of_Has-flush_if, Has-flush_if,
}

module _ (sl : SkipList) where
  open sl use {Entries, Has}

  module _ (db : MemTableDb Entries) (epoch : ℕ) (r : IsRing sl db) where
    abbrev with_tables : List (Table sl) → MemTableDb Entries
    with_tables ms = record db { memtables = ms }

    behind :
        Slots sl db.mut_memtable_idx db.num_write_buffers epoch r.0 db.memtables
          (db.num_write_buffers - 1)
          1
    behind =
        Chain-Slots sl db.mut_memtable_idx db.num_write_buffers epoch r.0 db.memtables
          db.latest_epoch r.1.0.oldest_epoch (db.num_write_buffers - 1) 1 r.1.4

    module _ (ms' : List (Table sl))
        (f : Flushes sl db.mut_memtable_idx db.num_write_buffers epoch r.0
          (db.num_write_buffers - 1)
          1
          db.memtables
          ms') where
      active : get_elem? ms' db.mut_memtable_idx ≡ some r.1.0
      active =
          let e = back-zero db.mut_memtable_idx db.num_write_buffers r.0 in
          ap (get_elem? ms') (sym e)
          ∙ (f 0 r.1.0 (omega (arith, r.0)) (ap (get_elem? db.memtables) e ∙ r.1.1)).0
              (inl (omega arith))

      Flushes-Flushed :
          Flushed sl db.memtables ms' db.mut_memtable_idx db.num_write_buffers db.latest_epoch epoch
            (db.num_write_buffers - 1)
            1
      Flushes-Flushed j t p q at = (f j t (omega arith) at).1 p q

      cleared-IsRing : IsRing sl (with_tables ms')
      cleared-IsRing = (
        r.0,
        (
          r.1.0,
          active,
          r.1.2,
          r.1.3,
          Chain-Flushed sl db.memtables ms' db.mut_memtable_idx db.num_write_buffers db.latest_epoch
              epoch r.1.0.oldest_epoch (db.num_write_buffers - 1) 1 (omega (arith, r.1.3))
              Flushes-Flushed r.1.4,
        ),
      )

      -- The slot `k`, counted from the active one backwards.
      from_active : (k : ℕ) → ℕ
      from_active k = back db.mut_memtable_idx db.num_write_buffers k

      at_slot :
          (ms : List (Table sl)) (k : ℕ)
          → k < db.num_write_buffers
          → get_elem? ms (back db.mut_memtable_idx db.num_write_buffers (from_active k))
            ≡ get_elem? ms k
      unfolding from_active
      at_slot ms k u =
          ap (get_elem? ms) (back-back db.mut_memtable_idx db.num_write_buffers k r.0 u)

      from_active-lt : (k : ℕ) → from_active k < db.num_write_buffers
      unfolding from_active
      from_active-lt k = back-lt db.mut_memtable_idx db.num_write_buffers k r.0

      cleared-drops :
          (e : MemTableEntry) → Stored sl db e → Stored sl (with_tables ms') e ⊎ (e.epoch ≤ epoch)
      cleared-drops e (k, u, (t, at, has)) =
          let j = from_active k in
          let at_j = at_slot db.memtables k u ∙ at in
          let after = f j t (from_active-lt k) at_j in
          elim (ℕ_discrete 0 j) [
            | yes front ↦ inl (k, u, (t, sym (at_slot ms' k u) ∙ after.0 (inl (omega arith)), has))
            | no later ↦ elim (Has-flush_if sl epoch t e has) [
              | inl stays ↦
                  let l = from_active-lt k in
                  inl (
                    k,
                    u,
                    (
                      flush_if sl epoch t,
                      sym (at_slot ms' k u) ∙ after.1 (omega arith) (omega (arith, l)),
                      stays,
                    ),
                  )
              | inr (old, imm) ↦
                  let l = from_active-lt k in
                  let le =
                    immutable-le sl db.memtables db.mut_memtable_idx db.num_write_buffers
                      db.latest_epoch r.1.0.oldest_epoch (db.num_write_buffers - 1) 1 j t e r.1.4
                      (omega arith) (omega (arith, l)) at_j imm has in
                  inr (omega (arith, le, old))
            ]
          ]

      cleared-adds : (e : MemTableEntry) → Stored sl (with_tables ms') e → Stored sl db e
      unfolding from_active
      cleared-adds e (k, u, (t', at', has)) =
          let j = from_active k in
          let l = from_active-lt k in
          elim (ℕ_discrete 0 j) [
            | yes front ↦
                let zero_slot : back db.mut_memtable_idx db.num_write_buffers j
                    ≡ db.mut_memtable_idx =
                  ap (back db.mut_memtable_idx db.num_write_buffers) (sym front)
                  ∙ back-zero db.mut_memtable_idx db.num_write_buffers r.0 in
                let k_first : k ≡ db.mut_memtable_idx =
                  sym (back-back db.mut_memtable_idx db.num_write_buffers k r.0 u) ∙ zero_slot in
                let here : get_elem? ms' k ≡ some r.1.0 = ap (get_elem? ms') k_first ∙ active in
                let same : t' ≡ r.1.0 = cc in
                (
                  k,
                  u,
                  (
                    r.1.0,
                    ap (get_elem? db.memtables) k_first ∙ r.1.1,
                    subst (λ (t : Table sl). Has t.entries e) same has,
                  ),
                )
            | no later ↦
                let w = behind j (omega arith) (omega (arith, l)) in
                let t = w.0 in
                let here : get_elem? ms' k ≡ some (flush_if sl epoch t) =
                  sym (at_slot ms' k u)
                  ∙ Flushes-Flushed j t (omega arith) (omega (arith, l)) w.1 in
                let same : t' ≡ flush_if sl epoch t = cc in
                (
                  k,
                  u,
                  (
                    t,
                    sym (at_slot db.memtables k u) ∙ w.1,
                    of_Has-flush_if sl epoch t e
                        (subst (λ (v : Table sl). Has v.entries e) same has),
                  ),
                )
          ]

    -- What `clear` leaves.
    abbrev pub Clears : MemTableDb Entries → Type 0
    Clears db' =
        IsRing sl db'
        × (db'.latest_epoch ≡ db.latest_epoch)
        × (db'.num_write_buffers ≡ db.num_write_buffers)
        × ((e : MemTableEntry) → Stored sl db' e → Stored sl db e)
        × ((e : MemTableEntry) → Stored sl db e → Stored sl db' e ⊎ (e.epoch ≤ epoch))
        × (db.latest_epoch ≤ epoch
            → Empties sl db'.memtables db'.mut_memtable_idx db'.num_write_buffers db'.latest_epoch
                (db'.num_write_buffers - 1) 1)

    -- In a database with the invariant of the ring `clear` does not panic. It keeps the invariant and the
    -- newest epoch, adds no entry, drops none above its epoch, and leaves all tables but the active one
    -- flushed and empty if the newest epoch is not above its epoch.
    pub clear-Clears : (db' : MemTableDb Entries) × (clear sl db epoch ≡ some db') × Clears db'
    unfolding clear
    clear-Clears =
        let (ms', runs, f) =
          clear_loop-Flushes sl db.mut_memtable_idx db.num_write_buffers epoch r.0
            (db.num_write_buffers - 1) 1 db.memtables (omega (arith, r.0)) behind in
        (
          with_tables ms',
          ground (arith, r.0, runs),
          (
            cleared-IsRing ms' f,
            refl,
            refl,
            cleared-adds ms' f,
            cleared-drops ms' f,
            λ late.
                Chain-Flushed_all sl db.memtables ms' db.mut_memtable_idx db.num_write_buffers
                  db.latest_epoch epoch r.1.0.oldest_epoch (db.num_write_buffers - 1) 1
                  (omega (arith, r.1.3, late)) (omega (arith, r.1.3)) (Flushes-Flushed ms' f) r.1.4,
          ),
        )
