-- ===== src/RangeServer/MemTable/Clear/Keeps.antt =====
-- What `clear` drops, and that it keeps the ring.
use atomix.Base.{
  ℕ, zero, suc, ◌+◌, ◌<◌, ◌≤◌, ◌≡◌, ◌≢◌, ◌⊎◌, inl, inr, refl, sym, ◌∙◌, ap, some, List, arith,
}
use mathlib.Core.Path.{subst}
use atomix.RangeServer.MemTable.Entries.{MemTableEntry, SkipList}
use atomix.RangeServer.MemTable.Ring.{back, get_elem?}
use atomix.RangeServer.MemTable.Database.{MemTableStatus, flushed, mutable, immutable}
use atomix.RangeServer.MemTable.Chain.{Table, IsFlat, Empties, Chain}
use atomix.RangeServer.MemTable.Clear.{flush_if}

module _ (sl : SkipList) where
  open sl use {Entries, Has, empty, not_has-empty}

  emptied : Table sl → Table sl
  emptied t = record t { status = flushed; size_in_bytes = 0; entries = empty }

  le_or_lt : (a b : ℕ) → (a ≤ b) ⊎ (b < a)
  le_or_lt a b = ground arith

  flush_if-old :
      (epoch : ℕ) (t : Table sl)
      → t.status ≡ immutable
      → t.latest_epoch ≤ epoch
      → flush_if sl epoch t ≡ emptied t
  unfolding flush_if emptied
  flush_if-old epoch t st l = ground (arith, st)

  flush_if-newer : (epoch : ℕ) (t : Table sl) → epoch < t.latest_epoch → flush_if sl epoch t ≡ t
  unfolding flush_if
  flush_if-newer epoch t l = ground arith

  flush_if-other : (epoch : ℕ) (t : Table sl) → t.status ≢ immutable → flush_if sl epoch t ≡ t
  unfolding flush_if
  flush_if-other epoch t ne = ground arith

  flat_ne : flushed ≢ immutable
  flat_ne e = ground arith

  active_ne : mutable ≢ immutable
  active_ne e = ground arith

  module _ (ms ms' : List (Table sl)) (m n latest epoch : ℕ) where
    -- From the `i`-th slot on, `count` slots may have been flushed.
    abbrev pub Flushed : (count i : ℕ) → Type 0
    Flushed count i =
        (j : ℕ) (t : Table sl)
        → i ≤ j
        → j < i + count
        → get_elem? ms (back m n j) ≡ some t
        → get_elem? ms' (back m n j) ≡ some (flush_if sl epoch t)

    Flushed-suc : (count i : ℕ) → Flushed (suc count) i → Flushed count (suc i)
    Flushed-suc count i f j t p q at = f j t (omega arith) (omega arith) at

    Flushed-zero :
        (count i : ℕ) (t : Table sl)
        → Flushed (suc count) i
        → get_elem? ms (back m n i) ≡ some t
        → get_elem? ms' (back m n i) ≡ some (flush_if sl epoch t)
    Flushed-zero count i t f at = f i t (omega arith) (omega arith) at

    IsFlat-other : (t : Table sl) → IsFlat sl latest t → flush_if sl epoch t ≡ t
    IsFlat-other t flat = flush_if-other epoch t (λ e. flat_ne (sym flat.0 ∙ e))

    Empties-Flushed :
        (count i : ℕ)
        → Flushed count i
        → Empties sl ms m n latest count i
        → Empties sl ms' m n latest count i
    Empties-Flushed zero i f c = tt
    Empties-Flushed (suc count) i f (t, at, flat, rest) = (
      t,
      Flushed-zero count i t f at ∙ ap some (IsFlat-other t flat),
      flat,
      Empties-Flushed count (suc i) (Flushed-suc count i f) rest,
    )

    emptied-IsFlat : (t : Table sl) → t.latest_epoch ≤ latest → IsFlat sl latest (emptied t)
    unfolding emptied
    emptied-IsFlat t l = (refl, not_has-empty, l)

    -- An epoch that nothing in the chain is above flushes all of it.
    pub Chain-Flushed_all :
        (bound count i : ℕ)
        → bound ≤ epoch
        → bound ≤ latest
        → Flushed count i
        → Chain sl ms m n latest bound count i
        → Empties sl ms' m n latest count i
    Chain-Flushed_all bound zero i b l f c = tt
    Chain-Flushed_all bound (suc count) i b l f (t, at, inl (flat, rest)) =
        Empties-Flushed (suc count) i f (t, at, flat, rest)
    Chain-Flushed_all bound (suc count) i b l f (t, at, inr (imm, held, rest)) = (
      emptied t,
      Flushed-zero count i t f at ∙ ap some (flush_if-old epoch t imm (omega (arith, held.1))),
      emptied-IsFlat t (omega (arith, held.1)),
      Chain-Flushed_all t.oldest_epoch count (suc i) (omega (arith, held.0, held.1))
          (omega (arith, held.0, held.1)) (Flushed-suc count i f) rest,
    )

    pub Chain-Flushed :
        (bound count i : ℕ)
        → bound ≤ latest
        → Flushed count i
        → Chain sl ms m n latest bound count i
        → Chain sl ms' m n latest bound count i
    Chain-Flushed bound zero i l f c = tt
    Chain-Flushed bound (suc count) i l f (t, at, inl (flat, rest)) =
        let (t', at', flat', rest') = Empties-Flushed (suc count) i f (t, at, flat, rest) in
        (t', at', inl (flat', rest'))
    Chain-Flushed bound (suc count) i l f (t, at, inr (imm, held, rest)) =
        elim (le_or_lt t.latest_epoch epoch) [
          | inl old ↦ (
            emptied t,
            Flushed-zero count i t f at ∙ ap some (flush_if-old epoch t imm old),
            inl (
              emptied-IsFlat t (omega (arith, held.1)),
              Chain-Flushed_all t.oldest_epoch count (suc i) (omega (arith, held.0, old))
                  (omega (arith, held.0, held.1)) (Flushed-suc count i f) rest,
            ),
          )
          | inr newer ↦ (
            t,
            Flushed-zero count i t f at ∙ ap some (flush_if-newer epoch t newer),
            inr (
              imm,
              held,
              Chain-Flushed t.oldest_epoch count (suc i) (omega (arith, held.0, held.1))
                  (Flushed-suc count i f) rest,
            ),
          )
        ]

  -- The two outcomes for a table.
  Fate : ℕ → Table sl → Type 0
  Fate epoch t =
      (flush_if sl epoch t ≡ t)
      ⊎ ((flush_if sl epoch t ≡ emptied t) × (t.latest_epoch ≤ epoch) × (t.status ≡ immutable))

  fate : (epoch : ℕ) (t : Table sl) (s : MemTableStatus) → t.status ≡ s → Fate epoch t
  unfolding Fate
  fate epoch t flushed st = inl (flush_if-other epoch t (λ e. flat_ne (sym st ∙ e)))
  fate epoch t mutable st = inl (flush_if-other epoch t (λ e. active_ne (sym st ∙ e)))
  fate epoch t immutable st = elim (le_or_lt t.latest_epoch epoch) [
    | inl old ↦ inr (flush_if-old epoch t st old, old, st)
    | inr newer ↦ inl (flush_if-newer epoch t newer)
  ]

  -- A flush adds no entry.
  pub of_Has-flush_if :
      (epoch : ℕ) (t : Table sl) (e : MemTableEntry)
      → Has (flush_if sl epoch t).entries e
      → Has t.entries e
  unfolding Fate emptied
  of_Has-flush_if epoch t e has = elim (fate epoch t t.status refl) [
    | inl same ↦ subst (λ (k : Table sl). Has k.entries e) same has
    | inr (gone, _, _) ↦
        absurd (not_has-empty e (subst (λ (k : Table sl). Has k.entries e) gone has))
  ]

  pub Has-flush_if :
      (epoch : ℕ) (t : Table sl) (e : MemTableEntry)
      → Has t.entries e
      → Has (flush_if sl epoch t).entries e ⊎ ((t.latest_epoch ≤ epoch) × (t.status ≡ immutable))
  unfolding Fate
  Has-flush_if epoch t e has = elim (fate epoch t t.status refl) [
    | inl same ↦ inl (subst (λ (k : Table sl). Has k.entries e) (sym same) has)
    | inr (gone, old, imm) ↦ inr (old, imm)
  ]
