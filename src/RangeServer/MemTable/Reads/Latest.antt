-- ===== src/RangeServer/MemTable/Reads/Latest.antt =====
-- `get` against the contract of rangeserver/src/cache.rs: the value of the latest epoch that is not
-- above the one asked for.
use atomix.Base.{
  ℕ, suc, ◌-◌, ◌≤◌, ◌≡◌, ◌⊎◌, inl, inr, refl, sym, ◌∙◌, ap, Option, none, some, [], Bytes, arith,
  if◌then◌else◌,
}
use mathlib.Core.Path.{subst}
use atomix.RangeServer.MemTable.Entries.{MemTableEntry, SkipList}
use atomix.RangeServer.MemTable.Ring.{back, back-lt, back-back, get_elem?}
use atomix.RangeServer.MemTable.Database.{MemTableDb}
use atomix.RangeServer.MemTable.Chain.{InSlots, IsRing, Stored}
use atomix.RangeServer.MemTable.Reads.{
  Search, found, missing, panics, Got, ok, get_loop, epoch_internal, or_zero, answer, get,
}
use atomix.RangeServer.MemTable.Reads.Newest.{IsNewest, active-IsNewest, active-le}

module _ (sl : SkipList) where
  open sl use {Entries, Has}

  -- An entry of the key that is not newer than the epoch asked for, if one is.
  abbrev pub Wanted : Bytes → Option ℕ → MemTableEntry → Type 0
  Wanted key none e = e.key ≡ key
  Wanted key (some epoch) e = (e.key ≡ key) × (e.epoch ≤ epoch)

  -- A wanted entry that is stored, and none is newer.
  abbrev pub IsLatest : MemTableDb Entries → Bytes → Option ℕ → MemTableEntry → Type 0
  IsLatest db key epoch e =
      Stored sl db e
      × Wanted key epoch e
      × ((e' : MemTableEntry) → Stored sl db e' → Wanted key epoch e' → e'.epoch ≤ e.epoch)

  module _ (db : MemTableDb Entries) (r : IsRing sl db) where
    all_slots : suc (db.num_write_buffers - 1) ≡ db.num_write_buffers
    all_slots = omega (arith, r.0)

    AllSlots : MemTableEntry → Type 0
    AllSlots =
        InSlots sl db.memtables db.mut_memtable_idx db.num_write_buffers db.latest_epoch
          db.num_write_buffers 0

    AllSlots-Stored : (e : MemTableEntry) → AllSlots e → Stored sl db e
    unfolding AllSlots
    AllSlots-Stored e (j, l, u, w) = (
      back db.mut_memtable_idx db.num_write_buffers j,
      back-lt db.mut_memtable_idx db.num_write_buffers j r.0,
      w,
    )

    Stored-AllSlots : (e : MemTableEntry) → Stored sl db e → AllSlots e
    unfolding AllSlots
    Stored-AllSlots e (j, u, (t, at, has)) = (
      back db.mut_memtable_idx db.num_write_buffers j,
      omega arith,
      omega (arith, back-lt db.mut_memtable_idx db.num_write_buffers j r.0),
      (
        t,
        ap (get_elem? db.memtables) (back-back db.mut_memtable_idx db.num_write_buffers j r.0 u)
            ∙ at,
        has,
      ),
    )

    -- Every round of the loop, that of the active table first.
    search : Bytes → ℕ → Search
    search key epoch =
        get_loop sl db.memtables db.mut_memtable_idx db.num_write_buffers key epoch
          db.num_write_buffers 0

    search-IsNewest :
        (key : Bytes) (epoch : ℕ)
        → IsNewest sl db.memtables db.mut_memtable_idx db.num_write_buffers db.latest_epoch key
            epoch db.num_write_buffers 0
            (search key epoch)
    unfolding search
    search-IsNewest key epoch =
        subst
          (λ k.
            IsNewest sl db.memtables db.mut_memtable_idx db.num_write_buffers db.latest_epoch key
              epoch k 0
              (get_loop sl db.memtables db.mut_memtable_idx db.num_write_buffers key epoch k 0))
          all_slots
          (active-IsNewest sl db.memtables db.mut_memtable_idx db.num_write_buffers db.latest_epoch
            key epoch (db.num_write_buffers - 1) r.1.0 r.0 r.1.1 r.1.2 r.1.3 r.1.4)

    AllSlots-le : (e : MemTableEntry) → AllSlots e → e.epoch ≤ db.latest_epoch
    unfolding AllSlots
    AllSlots-le e s =
        active-le sl db.memtables db.mut_memtable_idx db.num_write_buffers db.latest_epoch [] 0
          (db.num_write_buffers - 1) r.1.0 e r.0 r.1.1 r.1.3 r.1.4
          (subst
            (λ k.
              InSlots sl db.memtables db.mut_memtable_idx db.num_write_buffers db.latest_epoch k 0
                e)
            (sym all_slots) s)

    pub Stored-le : (e : MemTableEntry) → Stored sl db e → e.epoch ≤ db.latest_epoch
    Stored-le e s = AllSlots-le e (Stored-AllSlots e s)

    -- What `get` returns for the end of the loop.
    answered :
        (key : Bytes) (epoch : Option ℕ)
        → get sl db key epoch ≡ answer epoch (search key (epoch_internal sl db epoch))
    unfolding get search
    answered key epoch = ground (arith, r.0)

    below :
        (epoch : Option ℕ) (key : Bytes) (e : MemTableEntry)
        → Stored sl db e
        → Wanted key epoch e
        → (e.key ≡ key) × (e.epoch ≤ epoch_internal sl db epoch)
    below none key e s w = (w, AllSlots-le e (Stored-AllSlots e s))
    below (some l) key e s w = (w.0, ground (arith, AllSlots-le e (Stored-AllSlots e s), w.1))

    wanted :
        (epoch : Option ℕ) (key : Bytes) (e : MemTableEntry)
        → e.key ≡ key
        → e.epoch ≤ epoch_internal sl db epoch
        → Wanted key epoch e
    wanted none key e k h = k
    wanted (some l) key e k h = (k, ground (arith, h))

    -- What `get` finds, in terms of the entries.
    abbrev pub Answers : Bytes → Option ℕ → Got → Type 0
    Answers key epoch got =
        ((got ≡ ok none (or_zero epoch))
          × ((e : MemTableEntry) → Stored sl db e → Wanted key epoch e → ⊥))
        ⊎ ((e : MemTableEntry) × IsLatest db key epoch e
            × (got ≡ (if e.deleted then ok none (or_zero epoch) else ok (some e.val) e.epoch)))

    search-Answers :
        (key : Bytes) (epoch : Option ℕ) (s : Search)
        → IsNewest sl db.memtables db.mut_memtable_idx db.num_write_buffers db.latest_epoch key
            (epoch_internal sl db epoch)
            db.num_write_buffers
            0
            s
        → Answers key epoch (answer epoch s)
    unfolding answer AllSlots
    search-Answers key epoch missing w =
        inl (refl, λ e s q. let b = below epoch key e s q in w e (Stored-AllSlots e s) b.0 b.1)
    search-Answers key epoch panics w = absurd w
    search-Answers key epoch (found e) (s, k, old, most) = inr (
      e,
      (
        AllSlots-Stored e s,
        wanted epoch key e k old,
        λ e' s' q. let b = below epoch key e' s' q in most e' (Stored-AllSlots e' s') b.0 b.1,
      ),
      refl,
    )

    -- In a database with the invariant of the ring a read does not panic. It returns the value of an entry of the key than which none that is
    -- stored is newer, among those not above the epoch asked for, if one is; no value if that entry
    -- is a delete or if there is no entry at all.
    pub get-Answers : (key : Bytes) (epoch : Option ℕ) → Answers key epoch (get sl db key epoch)
    get-Answers key epoch = subst (Answers key epoch) (sym (answered key epoch)) (
        search-Answers key epoch (search key (epoch_internal sl db epoch))
          (search-IsNewest key (epoch_internal sl db epoch)))
