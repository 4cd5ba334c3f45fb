-- ===== src/RangeServer/MemTable/Reads/Find.antt =====
-- What one lookup in the skip list of a table finds.
use atomix.Base.{
  ℕ, ◌≤◌, ◌≡◌, ◌≢◌, refl, sym, ◌∙◌, true, false, Option, none, some, [], Bytes, arith,
  bytes_lt_irrefl, bytes_lt_total, bytes_discrete, ite,
}
use atomix.RangeServer.MemTable.Entries.{MemTableEntry, SkipList, entry_lt}
use atomix.RangeServer.MemTable.Reads.{find}

abbrev start : Bytes → ℕ → MemTableEntry
start key epoch = record { key = key; val = []; epoch = epoch; deleted = false }

-- An entry of the key that is not too new stands behind the start of the lookup.
not_lt-start :
    (e : MemTableEntry) (key : Bytes) (epoch : ℕ)
    → e.key ≡ key
    → e.epoch ≤ epoch
    → entry_lt e (start key epoch) ≡ false
unfolding entry_lt
not_lt-start e key epoch k h = ground (arith, k, bytes_lt_irrefl key)

-- Behind the start, an entry of the key is not too new.
le-of_not_lt :
    (e : MemTableEntry) (key : Bytes) (epoch : ℕ)
    → e.key ≡ key
    → entry_lt e (start key epoch) ≡ false
    → e.epoch ≤ epoch
unfolding entry_lt
le-of_not_lt e key epoch k h = ground (arith, k, bytes_lt_irrefl key)

-- Behind the start, an entry of another key stands behind all those of the key.
lt-of_other :
    (e e' : MemTableEntry) (key : Bytes) (epoch : ℕ)
    → entry_lt e (start key epoch) ≡ false
    → e.key ≢ key
    → e'.key ≡ key
    → entry_lt e' e ≡ true
unfolding entry_lt
lt-of_other e e' key epoch h ne k = ground (arith, k, bytes_lt_total e.key key)

-- The later of two entries of a key comes first.
le-of_first : (e e' : MemTableEntry) → e.key ≡ e'.key → entry_lt e' e ≡ false → e'.epoch ≤ e.epoch
unfolding entry_lt
le-of_first e e' k h = ground (arith, k, bytes_lt_irrefl e'.key)

module _ (sl : SkipList) where
  open sl use {Entries, Has, lower_bound, lower_bound-has, lower_bound_least, lower_bound-none}

  -- The newest entry of the key that is no newer than `epoch`, or none.
  abbrev pub Newest : Entries → Bytes → ℕ → Option MemTableEntry → Type 0
  Newest s key epoch none = (e : MemTableEntry) → Has s e → e.key ≡ key → e.epoch ≤ epoch → ⊥
  Newest s key epoch (some e) =
      Has s e
      × (e.key ≡ key)
      × (e.epoch ≤ epoch)
      × ((e' : MemTableEntry) → Has s e' → e'.key ≡ key → e'.epoch ≤ epoch → e'.epoch ≤ e.epoch)

  hit-Newest :
      (s : Entries) (key : Bytes) (epoch : ℕ) (e : MemTableEntry)
      → lower_bound (start key epoch) s ≡ some e
      → (d : Dec (e.key ≡ key)) → Newest s key epoch (ite d (some e) none)
  hit-Newest s key epoch e h (yes k) =
      let b = lower_bound-has (start key epoch) s e h in
      (
        b.0,
        k,
        le-of_not_lt e key epoch k b.1,
        λ e' has k' old.
            le-of_first e e' (k ∙ sym k')
              (lower_bound_least (start key epoch) s e e' h has (not_lt-start e' key epoch k' old)),
      )
  hit-Newest s key epoch e h (no ne) =
      let b = lower_bound-has (start key epoch) s e h in
      λ e' has k' old. cc (
        lower_bound_least (start key epoch) s e e' h has (not_lt-start e' key epoch k' old),
        lt-of_other e e' key epoch b.1 ne k',
      )

  bound-Newest :
      (s : Entries) (key : Bytes) (epoch : ℕ) (o : Option MemTableEntry)
      → lower_bound (start key epoch) s ≡ o
      → Newest s key epoch
          (elim o [ none ↦ none | some e ↦ ite (bytes_discrete e.key key) (some e) none ])
  bound-Newest s key epoch none h = λ e has k old.
      cc (lower_bound-none (start key epoch) s e h has, not_lt-start e key epoch k old)
  bound-Newest s key epoch (some e) h = hit-Newest s key epoch e h (bytes_discrete e.key key)

  pub find-Newest :
      (s : Entries) (key : Bytes) (epoch : ℕ) → Newest s key epoch (find sl s key epoch)
  unfolding find
  find-Newest s key epoch = bound-Newest s key epoch (lower_bound (start key epoch) s) refl
