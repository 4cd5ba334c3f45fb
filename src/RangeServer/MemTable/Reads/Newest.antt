-- ===== src/RangeServer/MemTable/Reads/Newest.antt =====
-- `get` finds the newest entry of a key.
use atomix.Base.{
  ℕ, zero, suc, ◌<◌, ◌≤◌, ◌≡◌, inl, inr, ap, ◌∙◌, Option, none, some, List, Bytes, arith, leb,
  Bool-cases, if◌then◌else◌,
}
use mathlib.Core.Path.{subst}
use atomix.RangeServer.MemTable.Entries.{MemTableEntry, SkipList}
use atomix.RangeServer.MemTable.Ring.{back, back-zero, get_elem?}
use atomix.RangeServer.MemTable.Database.{mutable}
use atomix.RangeServer.MemTable.Chain.{
  Table, IsHeld, Empties, Chain, InSlots, InSlots-split, not-InSlots, InSlots-le,
}
use atomix.RangeServer.MemTable.Reads.{Search, found, missing, panics, find, get_loop}
use atomix.RangeServer.MemTable.Reads.Find.{Newest, find-Newest}

module _ (sl : SkipList) where
  open sl use {Entries, Has}

  module _ (ms : List (Table sl)) (m n latest : ℕ) (key : Bytes) (epoch : ℕ) where
    -- The newest entry of the key in the slots, among those that are no newer than `epoch`.
    abbrev pub IsNewest : (count i : ℕ) → Search → Type 0
    IsNewest count i missing =
        (e : MemTableEntry) → InSlots sl ms m n latest count i e → e.key ≡ key → e.epoch ≤ epoch → ⊥
    IsNewest count i panics = ⊥
    IsNewest count i (found e) =
        InSlots sl ms m n latest count i e
        × (e.key ≡ key)
        × (e.epoch ≤ epoch)
        × ((e' : MemTableEntry)
            → InSlots sl ms m n latest count i e'
            → e'.key ≡ key
            → e'.epoch ≤ epoch
            → e'.epoch ≤ e.epoch)

    pub IsNewest-eq :
        (count i : ℕ) (r r' : Search) → r ≡ r' → IsNewest count i r → IsNewest count i r'
    IsNewest-eq count i r r' e h = subst (IsNewest count i) e h

    -- A table with nothing to find adds nothing.
    skip-IsNewest :
        (count i : ℕ) (t : Table sl) (rest : Search)
        → get_elem? ms (back m n i) ≡ some t
        → ((e : MemTableEntry) → Has t.entries e → e.key ≡ key → e.epoch ≤ epoch → ⊥)
        → IsNewest count (suc i) rest
        → IsNewest (suc count) i rest
    skip-IsNewest count i t missing at dry ih = λ e s k old.
        elim (InSlots-split sl ms m n latest count i t e at s) [
          | inl has ↦ dry e has k old
          | inr later ↦ ih e later k old
        ]
    skip-IsNewest count i t panics at dry ih = ih
    skip-IsNewest count i t (found e) at dry ((j, l, u, w), k, old, most) = (
      (j, omega arith, omega arith, w),
      k,
      old,
      λ e' s' k' old'. elim (InSlots-split sl ms m n latest count i t e' at s') [
        | inl has ↦ absurd (dry e' has k' old')
        | inr later ↦ most e' later k' old'
      ],
    )

    -- An entry found in a table is newer than all behind it.
    hit-IsNewest :
        (count i : ℕ) (t : Table sl) (e : MemTableEntry)
        → get_elem? ms (back m n i) ≡ some t
        → ((e : MemTableEntry) → Has t.entries e → t.oldest_epoch ≤ e.epoch)
        → ((e : MemTableEntry)
            → InSlots sl ms m n latest count (suc i) e
            → e.epoch ≤ t.oldest_epoch)
        → Newest sl t.entries key epoch (some e)
        → IsNewest (suc count) i (found e)
    hit-IsNewest count i t e at lower older (has, k, old, most) = (
      (i, omega arith, omega arith, (t, at, has)),
      k,
      old,
      λ e' s' k' old'. elim (InSlots-split sl ms m n latest count i t e' at s') [
        | inl has' ↦ most e' has' k' old'
        | inr later ↦ omega (arith, older e' later, lower e has)
      ],
    )

    -- What the loop does at a table that is not flushed.
    abbrev pub step : Table sl → Search → Option MemTableEntry → Search
    step t rest o =
        if leb t.oldest_epoch epoch then elim o [ none ↦ rest | some e ↦ found e ] else rest

    pub step-IsNewest :
        (count i : ℕ) (t : Table sl) (rest : Search) (o : Option MemTableEntry)
        → get_elem? ms (back m n i) ≡ some t
        → ((e : MemTableEntry) → Has t.entries e → t.oldest_epoch ≤ e.epoch)
        → ((e : MemTableEntry)
            → InSlots sl ms m n latest count (suc i) e
            → e.epoch ≤ t.oldest_epoch)
        → Newest sl t.entries key epoch o
        → IsNewest count (suc i) rest
        → IsNewest (suc count) i (step t rest o)
    step-IsNewest count i t rest none at lower older w ih =
        elim (Bool-cases (leb t.oldest_epoch epoch)) [
          | inl old ↦
              IsNewest-eq (suc count) i rest _ (ground (arith, old))
                (skip-IsNewest count i t rest at w ih)
          | inr new ↦
              IsNewest-eq (suc count) i rest _ (ground (arith, new))
                (skip-IsNewest count i t rest at w ih)
        ]
    step-IsNewest count i t rest (some e) at lower older w ih =
        elim (Bool-cases (leb t.oldest_epoch epoch)) [
          | inl old ↦
              IsNewest-eq (suc count) i (found e) _ (ground (arith, old))
                (hit-IsNewest count i t e at lower older w)
          | inr new ↦ IsNewest-eq (suc count) i rest _ (ground (arith, new)) (
              skip-IsNewest count i t rest at (λ e' has k old. ground (arith, new, lower e' has))
                ih)
        ]

    Empties-IsNewest : (count i : ℕ) → Empties sl ms m n latest count i → IsNewest count i missing
    Empties-IsNewest count i c = λ e s k old. not-InSlots sl ms m n latest count i e c s

    pub get_loop-IsNewest :
        (bound count i : ℕ)
        → Chain sl ms m n latest bound count i
        → IsNewest count i (get_loop sl ms m n key epoch count i)
    unfolding get_loop
    get_loop-IsNewest bound zero i c = Empties-IsNewest zero i tt
    get_loop-IsNewest bound (suc count) i (t, at, inl (flat, rest)) =
        IsNewest-eq (suc count) i missing _ (ground (arith, at, flat.0))
          (Empties-IsNewest (suc count) i (t, at, flat, rest))
    get_loop-IsNewest bound (suc count) i (t, at, inr (st, held, rest)) =
        IsNewest-eq (suc count) i
          (step t (get_loop sl ms m n key epoch count (suc i)) (find sl t.entries key epoch)) _
          (ground (arith, at, st))
          (step-IsNewest count i t (get_loop sl ms m n key epoch count (suc i))
            (find sl t.entries key epoch) at (λ e has. (held.2 e has).0)
            (λ e s. InSlots-le sl ms m n latest t.oldest_epoch count (suc i) e rest s)
            (find-Newest sl t.entries key epoch)
            (get_loop-IsNewest t.oldest_epoch count (suc i) rest))

    -- The active table and the slots behind it.
    pub active-IsNewest :
        (count : ℕ) (t : Table sl)
        → m < n
        → get_elem? ms m ≡ some t
        → t.status ≡ mutable
        → IsHeld sl latest t
        → Chain sl ms m n latest t.oldest_epoch count 1
        → IsNewest (suc count) 0 (get_loop sl ms m n key epoch (suc count) 0)
    unfolding get_loop
    active-IsNewest count t h at st held c =
        let at' : get_elem? ms (back m n 0) ≡ some t = ap (get_elem? ms) (back-zero m n h) ∙ at in
        IsNewest-eq (suc count) 0
          (step t (get_loop sl ms m n key epoch count 1) (find sl t.entries key epoch)) _
          (ground (arith, at', st))
          (step-IsNewest count 0 t (get_loop sl ms m n key epoch count 1)
            (find sl t.entries key epoch) at' (λ e has. (held.2 e has).0)
            (λ e s. InSlots-le sl ms m n latest t.oldest_epoch count 1 e c s)
            (find-Newest sl t.entries key epoch) (get_loop-IsNewest t.oldest_epoch count 1 c))

    pub active-le :
        (count : ℕ) (t : Table sl) (e : MemTableEntry)
        → m < n
        → get_elem? ms m ≡ some t
        → IsHeld sl latest t
        → Chain sl ms m n latest t.oldest_epoch count 1
        → InSlots sl ms m n latest (suc count) 0 e
        → e.epoch ≤ latest
    active-le count t e h at held c s =
        elim (InSlots-split sl ms m n latest count 0 t e (ap (get_elem? ms) (back-zero m n h) ∙ at)
          s) [
            | inl has ↦ omega (arith, held.2 e has)
            | inr later ↦
                omega (arith, InSlots-le sl ms m n latest t.oldest_epoch count 1 e c later)
          ]
