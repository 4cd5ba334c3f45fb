-- ===== src/RangeServer/MemTable/Database/Outcomes.antt =====
-- How a write ends.
use atomix.Base.{
  Bytes, ℕ, suc, ◌+◌, ◌-◌, ◌%◌, ◌<◌, ◌≤◌, ◌≡◌, ◌≢◌, inl, inr, refl, sym, ◌∙◌, ap, Option, some,
  none, Bool-cases, ℕ_discrete, arith, ltb, if◌then◌else◌, u64_mod,
}
use mathlib.Core.Path.{subst}
use atomix.RangeServer.MemTable.Entries.{MemTableEntry, SkipList}
use atomix.RangeServer.MemTable.Ring.{back, next-back, get_elem?, get_elem?-set_ne, set}
use atomix.RangeServer.MemTable.Database.{
  MemTableStatus, flushed, mutable, immutable, MemTableDb, Written, stored, cache_is_full, panics,
  put_entry, switch, write_entry, length, upsert_or_delete,
}
use atomix.RangeServer.MemTable.Chain.{Table, IsHeld, Chain, IsRing}
use atomix.RangeServer.MemTable.Chain.Moves.{Chain-some}
use atomix.RangeServer.MemTable.Database.Adds.{entry_of, deletes, Adds, put-Puts, relabel}
use atomix.RangeServer.MemTable.Database.Writes.{
  turned, put_entry-IsRing, next-ne, after-new, turned-Chain, next-IsFlat,
}

mutable_ne : mutable ≢ flushed
mutable_ne e = ground arith

immutable_ne : immutable ≢ flushed
immutable_ne e = ground arith

module _ (sl : SkipList) where
  open sl use {Entries, Has, insert, has-insert, has-insert_other, of_has-insert}

  -- What a write promises: it never panics, and is refused only while the next table of the ring is
  -- not flushed.
  abbrev pub Keeps : MemTableDb Entries → MemTableEntry → Written Entries → Type 0
  Keeps db entry (stored db' called) = Adds sl db entry db'
  Keeps db entry cache_is_full =
      (t : Table sl) × (get_elem? db.memtables ((db.mut_memtable_idx + 1) % db.num_write_buffers)
        ≡ some t)
      × (t.status ≢ flushed)
  Keeps db entry panics = ⊥

  module _ (db : MemTableDb Entries) (entry : MemTableEntry) (entry_size : ℕ) (t : Table sl)
      (h : db.mut_memtable_idx < db.num_write_buffers)
      (at : get_elem? db.memtables db.mut_memtable_idx ≡ some t) (st : t.status ≡ mutable)
      (held : IsHeld sl db.latest_epoch t)
      (c : Chain sl db.memtables db.mut_memtable_idx db.num_write_buffers db.latest_epoch
        t.oldest_epoch
        (db.num_write_buffers - 1)
        1)
      (new : db.latest_epoch ≤ entry.epoch) where
    put-Adds : Adds sl db entry (put_entry sl db t entry entry_size)
    unfolding put_entry
    put-Adds =
        let puts =
          put-Puts sl db.memtables db.num_write_buffers db.mut_memtable_idx t entry entry_size h
            at in
        (
          put_entry-IsRing sl db t entry entry_size h at st (omega (arith, held.0, held.1))
              (omega (arith, held.1)) held.2 c new,
          refl,
          refl,
          puts.0,
          puts.1,
          puts.2,
        )

    switched : (t' : Table sl) → MemTableDb Entries
    switched t' =
        put_entry sl (turned sl db t t' entry)
          (record t' { status = mutable; oldest_epoch = entry.epoch }) entry entry_size

    switched-Adds :
        (t' : Table sl)
        → get_elem? db.memtables ((db.mut_memtable_idx + 1) % db.num_write_buffers) ≡ some t'
        → t'.status ≡ flushed
        → Adds sl db entry (switched t')
    unfolding switched put_entry
    switched-Adds t' at' free =
        let a : Table sl = record t' { status = mutable; oldest_epoch = entry.epoch } in
        let m = db.mut_memtable_idx in
        let n = db.num_write_buffers in
        let u : (m + 1) % n < n = grind arith in
        let flat =
          next-IsFlat sl db.memtables m n db.latest_epoch entry.epoch t t' h at st at' free held c
            new in
        let at_a =
          after-new sl db.memtables m n db.latest_epoch entry.epoch t t' h at st at' free held c
            new in
        let at_m : get_elem? (set db.memtables ((m + 1) % n) a) m ≡ some t =
          get_elem?-set_ne db.memtables ((m + 1) % n) m a (λ e.
            next-ne sl db.memtables m n db.latest_epoch entry.epoch t t' h at st at' free held c new
              (sym e))
          ∙ at in
        let first = relabel sl db.memtables n ((m + 1) % n) t' a u at' refl in
        let second =
          relabel sl (set db.memtables ((m + 1) % n) a) n m t (record t { status = immutable }) h
            at_m refl in
        let puts =
          put-Puts sl (turned sl db t t' entry).memtables n ((m + 1) % n) a entry entry_size u
            at_a in
        (
          put_entry-IsRing sl (turned sl db t t' entry) a entry entry_size u at_a refl (omega arith)
              (omega (arith, flat.2)) (λ e has. absurd (flat.1 e has))
              (turned-Chain sl db.memtables m n db.latest_epoch entry.epoch t t' h at st at' free
                held c new)
              new,
          refl,
          refl,
          puts.0,
          λ e s. puts.1 e ((second e).0 ((first e).0 s)),
          λ e s. elim (puts.2 e s) [
            | inl same ↦ inl same
            | inr old ↦ inr ((first e).1 ((second e).1 old))
          ],
        )

    slot_next :
        (u : Table sl) × (get_elem? db.memtables ((db.mut_memtable_idx + 1) % db.num_write_buffers)
          ≡ some u)
    slot_next =
        let m = db.mut_memtable_idx in
        let n = db.num_write_buffers in
        elim (ℕ_discrete m ((m + 1) % n)) [
          | yes one ↦ (t, subst (λ k. get_elem? db.memtables k ≡ some t) one at)
          | no other ↦
              let b = next-back m n h other in
              let e : n - 1 ≡ suc (n - 2) = omega (arith, b.0) in
              let e' : (n - 2) + 1 ≡ n - 1 = omega (arith, b.0) in
              let last =
                Chain-some sl db.memtables m n db.latest_epoch t.oldest_epoch (n - 2) 1
                  (subst (λ k. Chain sl db.memtables m n db.latest_epoch t.oldest_epoch k 1) e c) in
              (last.0, ap (get_elem? db.memtables) (b.1 ∙ ap (back m n) (sym e')) ∙ last.1)
        ]

    next_table :
        (t' : Table sl) (s : MemTableStatus)
        → get_elem? db.memtables ((db.mut_memtable_idx + 1) % db.num_write_buffers) ≡ some t'
        → t'.status ≡ s
        → Keeps db entry (switch sl db t entry entry_size)
    unfolding switch switched
    next_table t' flushed at' e =
        let goes : switch sl db t entry entry_size
            ≡ stored (switched t') (if db.gc_callback then some t'.latest_epoch else none) =
          rw (switch, at', e) in
        subst (Keeps db entry) (sym goes) (switched-Adds t' at' e)
    next_table t' mutable at' e =
        let goes : switch sl db t entry entry_size ≡ cache_is_full = rw (switch, at', e) in
        subst (Keeps db entry) (sym goes) (t', at', λ free. mutable_ne (sym e ∙ free))
    next_table t' immutable at' e =
        let goes : switch sl db t entry entry_size ≡ cache_is_full = rw (switch, at', e) in
        subst (Keeps db entry) (sym goes) (t', at', λ free. immutable_ne (sym e ∙ free))

    switch-Keeps : Keeps db entry (switch sl db t entry entry_size)
    switch-Keeps = next_table slot_next.0 slot_next.0.status slot_next.1 refl

  abbrev size : MemTableEntry → ℕ
  size e = (length e.key + length e.val + 9) % u64_mod

  -- A write of an entry that is not older than the newest one.
  write_entry-Keeps :
      (db : MemTableDb Entries) (entry : MemTableEntry)
      → IsRing sl db
      → db.latest_epoch ≤ entry.epoch
      → Keeps db entry (write_entry sl db entry)
  unfolding write_entry
  write_entry-Keeps db entry (h, (t, at, st, held, c)) new =
      let goes : write_entry sl db entry ≡ (
          if ltb db.write_buffer_size ((t.size_in_bytes + size entry) % u64_mod)
          then switch sl db t entry (size entry)
          else stored (put_entry sl db t entry (size entry)) none) =
        ground (arith, at, st) in
      subst (Keeps db entry) (sym goes)
        (elim (Bool-cases (ltb db.write_buffer_size ((t.size_in_bytes + size entry) % u64_mod))) [
          | inl full ↦ rw full (switch-Keeps db entry (size entry) t h at st held c new)
          | inr fits ↦ rw fits (put-Adds db entry (size entry) t h at st held c new)
        ])

  -- In a database with the invariant of the ring, an `upsert` or `delete` at an epoch that is not below
  -- the newest one neither panics nor breaks the invariant. It is refused only while the next table of the ring is not flushed. Otherwise the database
  -- has what it had and the entry, and nothing else.
  pub upsert_or_delete-Keeps :
      (db : MemTableDb Entries) (key : Bytes) (epoch : ℕ) (val : Option Bytes)
      → IsRing sl db
      → db.latest_epoch ≤ epoch
      → Keeps db (entry_of sl key epoch val) (upsert_or_delete sl db key epoch (deletes sl val) val)
  unfolding upsert_or_delete
  upsert_or_delete-Keeps db key epoch (some v) r new =
      subst (Keeps db (entry_of sl key epoch (some v))) (ground (arith, r.0))
        (write_entry-Keeps db (entry_of sl key epoch (some v)) r new)
  upsert_or_delete-Keeps db key epoch none r new =
      subst (Keeps db (entry_of sl key epoch none)) (ground (arith, r.0))
        (write_entry-Keeps db (entry_of sl key epoch none) r new)
