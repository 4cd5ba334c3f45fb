-- ===== src/RangeServer/MemTable/Runs.antt =====
-- Runs of the database: what is in it, and what a read returns, in terms of the writes so far.
use atomix.Base.{
  ℕ, ◌<◌, ◌≤◌, ◌≡◌, ◌⊎◌, inl, inr, sym, ◌∙◌, ap, Option, some, none, List, [], ◌∷◌, arith, max,
  Bytes, false, if◌then◌else◌,
}
use mathlib.Core.Path.{subst}
use atomix.RangeServer.MemTable.Entries.{MemTableEntry, SkipList}
use atomix.RangeServer.MemTable.Database.{
  MemTableDb, stored, new, upsert_or_delete, register_gc_callback,
}
use atomix.RangeServer.MemTable.Database.Adds.{entry_of, deletes, Adds}
use atomix.RangeServer.MemTable.Database.Outcomes.{Keeps, upsert_or_delete-Keeps}
use atomix.RangeServer.MemTable.Chain.{IsRing, Stored}
use atomix.RangeServer.MemTable.Clear.{clear}
use atomix.RangeServer.MemTable.Clear.Outcome.{Clears, clear-Clears}
use atomix.RangeServer.MemTable.Start.{new-IsRing}
use atomix.RangeServer.MemTable.Reads.{Got, ok, or_zero, get}
use atomix.RangeServer.MemTable.Reads.Latest.{Wanted, get-Answers}

abbrev pub Logged : MemTableEntry → List MemTableEntry → Type 0
Logged e [] = ⊥
Logged e (x ∷ log) = (e ≡ x) ⊎ Logged e log

-- What a read that finds the entry returns.
abbrev pub reply : Option ℕ → MemTableEntry → Got
reply asked e = if e.deleted then ok none (or_zero asked) else ok (some e.val) e.epoch

module _ (sl : SkipList) where
  open sl use {Entries}

  -- The states that calls lead to, with the entries written so far, the newest first, and an epoch
  -- that none of the calls of `clear` was above.
  pub data Run : MemTableDb Entries → List MemTableEntry → ℕ → Type 0 where
    started : {db : MemTableDb Entries} (n size : ℕ) → 0 < n → new sl n size ≡ some db → Run db [] 0
    wrote :
        {db db' : MemTableDb Entries} {log : List MemTableEntry} {cleared_to : ℕ} (key : Bytes)
        (epoch : ℕ) (val : Option Bytes) (called : Option ℕ)
        → db.latest_epoch ≤ epoch
        → upsert_or_delete sl db key epoch (deletes sl val) val ≡ stored db' called
        → Run db log cleared_to
        → Run db' (entry_of sl key epoch val ∷ log) cleared_to
    cleared :
        {db db' : MemTableDb Entries} {log : List MemTableEntry} {cleared_to : ℕ} (epoch : ℕ)
        → clear sl db epoch ≡ some db'
        → Run db log cleared_to
        → Run db' log (max cleared_to epoch)
    registered :
        {db : MemTableDb Entries} {log : List MemTableEntry} {cleared_to : ℕ}
        → Run db log cleared_to
        → Run (register_gc_callback sl db) log cleared_to

  abbrev pub Holds : MemTableDb Entries → List MemTableEntry → ℕ → Type 0
  Holds db log cleared_to =
      IsRing sl db
      × ((e : MemTableEntry) → Stored sl db e → Logged e log)
      × ((e : MemTableEntry) → Logged e log → Stored sl db e ⊎ (e.epoch ≤ cleared_to))

  wrote-Holds :
      (db db' : MemTableDb Entries) (entry : MemTableEntry) (log : List MemTableEntry)
      (cleared_to : ℕ)
      → Adds sl db entry db'
      → Holds db log cleared_to
      → Holds db' (entry ∷ log) cleared_to
  wrote-Holds db db' entry log cleared_to (r, _, _, has, keeps, adds) h = (
    r,
    λ e s. elim (adds e s) [ inl new ↦ inl new | inr old ↦ inr (h.1 e old) ],
    λ e l. elim l [
      | inl new ↦ inl (subst (Stored sl db') (sym new) has)
      | inr old ↦ elim (h.2 e old) [ inl s ↦ inl (keeps e s) | inr c ↦ inr c ]
    ],
  )

  cleared-Holds :
      (db db' : MemTableDb Entries) (epoch : ℕ) (log : List MemTableEntry) (cleared_to : ℕ)
      → (h : Holds db log cleared_to) → Clears sl db epoch h.0 db'
      → Holds db' log (max cleared_to epoch)
  cleared-Holds db db' epoch log cleared_to h (r, _, _, adds, drops, _) = (
    r,
    λ e s. h.1 e (adds e s),
    λ e l. elim (h.2 e l) [
      | inl s ↦ elim (drops e s) [ inl s' ↦ inl s' | inr c ↦ inr (ground (arith, c)) ]
      | inr c ↦ inr (ground (arith, c))
    ],
  )

  registered-Holds :
      (db : MemTableDb Entries) (log : List MemTableEntry) (cleared_to : ℕ)
      → Holds db log cleared_to
      → Holds (register_gc_callback sl db) log cleared_to
  unfolding register_gc_callback
  registered-Holds db log cleared_to h = h

  pub some_inj : {A : Type 0} (x y : A) → some x ≡ some y → x ≡ y
  some_inj x y e = ground (arith, e)

  -- Every run keeps the ring, stores no entry that was not written, and drops only what a `clear` let
  -- go.
  pub Run-Holds :
      (db : MemTableDb Entries) (log : List MemTableEntry) (cleared_to : ℕ)
      → Run db log cleared_to
      → Holds db log cleared_to
  Run-Holds db log cleared_to (started n size several e) =
      let (db', e', r, none_stored) = new-IsRing sl n several size in
      let same : db' ≡ db = some_inj db' db (sym e' ∙ e) in
      subst (λ k. Holds k [] 0) same (r, λ x s. absurd (none_stored x s), λ x l. absurd l)
  Run-Holds db log cleared_to (wrote {db = before} key epoch val called later e r) =
      let h = Run-Holds _ _ _ r in
      wrote-Holds before db (entry_of sl key epoch val) _ cleared_to
        (subst (Keeps sl before (entry_of sl key epoch val)) e
          (upsert_or_delete-Keeps sl before key epoch val h.0 later))
        h
  Run-Holds db log cleared_to (cleared {db = before} epoch e r) =
      let h = Run-Holds _ _ _ r in
      let (db', e', c) = clear-Clears sl before epoch h.0 in
      let same : db' ≡ db = some_inj db' db (sym e' ∙ e) in
      cleared-Holds before db epoch log _ h (subst (Clears sl before epoch h.0) same c)
  Run-Holds db log cleared_to (registered {db = before} r) =
      registered-Holds before log cleared_to (Run-Holds _ _ _ r)

  reply-ok :
      (asked : Option ℕ) (e : MemTableEntry)
      → e.deleted ≡ false
      → reply asked e ≡ ok (some e.val) e.epoch
  reply-ok asked e live = rw live

  -- After a run of calls from `new` in which no write is at an epoch below the newest one: a written entry
  -- above every epoch that was cleared, and that is the newest write of its key among those not above
  -- the epoch asked for, with no other write of the key at its epoch, is what a read returns: its value
  -- and epoch, or no value if it is a delete.
  pub get-Run :
      (db : MemTableDb Entries) (log : List MemTableEntry) (cleared_to : ℕ) (asked : Option ℕ)
      (e : MemTableEntry)
      → Run db log cleared_to
      → Logged e log
      → cleared_to < e.epoch
      → Wanted sl e.key asked e
      → ((e' : MemTableEntry)
          → Logged e' log
          → Wanted sl e.key asked e'
          → (e' ≡ e) ⊎ (e'.epoch < e.epoch))
      → get sl db e.key asked ≡ reply asked e
  get-Run db log cleared_to asked e r l kept w newest =
      let h = Run-Holds db log cleared_to r in
      elim (h.2 e l) [
        | inr gone ↦ absurd (omega (arith, gone, kept))
        | inl s ↦ elim (get-Answers sl db h.0 e.key asked) [
          | inl (_, nothing) ↦ absurd (nothing e s w)
          | inr (e', (s', w', most), got) ↦ elim (newest e' (h.1 e' s') w') [
            | inl same ↦ got ∙ ap (reply asked) same
            | inr older ↦ absurd (omega (arith, most e s w, older))
          ]
        ]
      ]

  -- A key that was never written has no value.
  pub get-Run_none :
      (db : MemTableDb Entries) (log : List MemTableEntry) (cleared_to : ℕ) (asked : Option ℕ)
      (key : Bytes)
      → Run db log cleared_to
      → ((e : MemTableEntry) → Logged e log → ¬ Wanted sl key asked e)
      → get sl db key asked ≡ ok none (or_zero asked)
  get-Run_none db log cleared_to asked key r never =
      let h = Run-Holds db log cleared_to r in
      elim (get-Answers sl db h.0 key asked) [
        | inl (got, _) ↦ got
        | inr (e, (s, w, _), _) ↦ absurd (never e (h.1 e s) w)
      ]
