-- ===== src/RangeServer/MemTable/Clear/Slots.antt =====
-- What the loop of `clear` does to every slot of the ring.
use atomix.Base.{
  ℕ, zero, suc, ◌+◌, ◌<◌, ◌≤◌, ◌≡◌, ◌⊎◌, inl, inr, refl, sym, ◌∙◌, ap, some, List, arith,
  ℕ_discrete,
}
use mathlib.Core.Path.{subst}
use atomix.RangeServer.MemTable.Entries.{SkipList}
use atomix.RangeServer.MemTable.Ring.{
  back, back-inj, get_elem?, set, get_elem?-set_ne, get_elem?-set_self,
}
use atomix.RangeServer.MemTable.Chain.{Table, Empties, Chain}
use atomix.RangeServer.MemTable.Clear.{flush_if, clear_loop}

module _ (sl : SkipList) (m n epoch : ℕ) (h : m < n) where
  -- The slots before the `i`-th and from the `i + count`-th on are as they were, those between may
  -- have been flushed.
  abbrev pub Flushes : (count i : ℕ) → List (Table sl) → List (Table sl) → Type 0
  Flushes count i ms ms' =
      (j : ℕ) (t : Table sl)
      → j < n
      → get_elem? ms (back m n j) ≡ some t
      → (((j < i) ⊎ (i + count ≤ j)) → get_elem? ms' (back m n j) ≡ some t)
        × (i ≤ j → j < i + count → get_elem? ms' (back m n j) ≡ some (flush_if sl epoch t))

  abbrev pub Slots : List (Table sl) → (count i : ℕ) → Type 0
  Slots ms count i =
      (j : ℕ) → i ≤ j → j < i + count → (t : Table sl) × (get_elem? ms (back m n j) ≡ some t)

  flush_one :
      (count i : ℕ) (ms ms' : List (Table sl)) (t : Table sl)
      → i < n
      → get_elem? ms (back m n i) ≡ some t
      → Flushes count (suc i) (set ms (back m n i) (flush_if sl epoch t)) ms'
      → Flushes (suc count) i ms ms'
  flush_one count i ms ms' t u at f j v l at_j = elim (ℕ_discrete i j) [
    | yes here ↦
        let at_i : get_elem? ms (back m n j) ≡ some t =
          subst (λ k. get_elem? ms (back m n k) ≡ some t) here at in
        let same : v ≡ t = cc in
        let now : get_elem? (set ms (back m n i) (flush_if sl epoch t)) (back m n j)
            ≡ some (flush_if sl epoch t) =
          subst
            (λ k.
              get_elem? (set ms (back m n i) (flush_if sl epoch t)) (back m n k)
              ≡ some (flush_if sl epoch t))
            here (get_elem?-set_self ms (back m n i) (flush_if sl epoch t) t at) in
        (
          λ o. absurd (omega (arith, o)),
          λ p q.
              (f j (flush_if sl epoch t) l now).0 (inl (omega arith))
              ∙ ap (λ k. some (flush_if sl epoch k)) (sym same),
        )
    | no other ↦
        let now : get_elem? (set ms (back m n i) (flush_if sl epoch t)) (back m n j) ≡ some v =
          get_elem?-set_ne ms (back m n i) (back m n j) (flush_if sl epoch t)
            (λ e. other (back-inj m n i j h u l e))
          ∙ at_j in
        (
          λ o. (f j v l now).0 (elim o [ inl p ↦ inl (omega arith) | inr q ↦ inr (omega arith) ]),
          λ p q. (f j v l now).1 (omega arith) (omega arith),
        )
  ]

  Slots-set :
      (count i : ℕ) (ms : List (Table sl)) (t : Table sl)
      → i + suc count ≤ n
      → Slots ms (suc count) i
      → Slots (set ms (back m n i) (flush_if sl epoch t)) count (suc i)
  Slots-set count i ms t u s j p q =
      let w = s j (omega arith) (omega arith) in
      (
        w.0,
        get_elem?-set_ne ms (back m n i) (back m n j) (flush_if sl epoch t)
              (λ e. absurd (omega (arith, back-inj m n i j h (omega arith) (omega arith) e)))
            ∙ w.1,
      )

  clear_loop-next :
      (count i : ℕ) (ms : List (Table sl)) (t : Table sl)
      → get_elem? ms (back m n i) ≡ some t
      → clear_loop sl m n epoch (suc count) i ms
        ≡ clear_loop sl m n epoch count (suc i) (set ms (back m n i) (flush_if sl epoch t))
  unfolding clear_loop
  clear_loop-next count i ms t at = rw (clear_loop, at)

  -- The loop ends without a panic.
  pub clear_loop-Flushes :
      (count i : ℕ) (ms : List (Table sl))
      → i + count ≤ n
      → Slots ms count i
      → (ms' : List (Table sl)) × (clear_loop sl m n epoch count i ms ≡ some ms')
        × Flushes count i ms ms'
  unfolding clear_loop
  clear_loop-Flushes zero i ms u s = (ms, refl, λ j t l at. (λ o. at, λ p q. absurd (omega arith)))
  clear_loop-Flushes (suc count) i ms u s =
      let (t, at) = s i (omega arith) (omega arith) in
      let next = set ms (back m n i) (flush_if sl epoch t) in
      let (ms', runs, f) =
        clear_loop-Flushes count (suc i) next (omega arith) (Slots-set count i ms t u s) in
      (ms', clear_loop-next count i ms t at ∙ runs, flush_one count i ms ms' t (omega arith) at f)

  pub Empties-Slots :
      (ms : List (Table sl)) (latest count i : ℕ)
      → Empties sl ms m n latest count i
      → Slots ms count i
  Empties-Slots ms latest zero i c j p q = absurd (omega arith)
  Empties-Slots ms latest (suc count) i (t, at, flat, rest) j p q = elim (ℕ_discrete i j) [
    | yes here ↦ (t, subst (λ k. get_elem? ms (back m n k) ≡ some t) here at)
    | no later ↦ Empties-Slots ms latest count (suc i) rest j (omega arith) (omega arith)
  ]

  pub Chain-Slots :
      (ms : List (Table sl)) (latest bound count i : ℕ)
      → Chain sl ms m n latest bound count i
      → Slots ms count i
  Chain-Slots ms latest bound zero i c j p q = absurd (omega arith)
  Chain-Slots ms latest bound (suc count) i (t, at, inl (flat, rest)) j p q =
      Empties-Slots ms latest (suc count) i (t, at, flat, rest) j p q
  Chain-Slots ms latest bound (suc count) i (t, at, inr (imm, held, rest)) j p q =
      elim (ℕ_discrete i j) [
        | yes here ↦ (t, subst (λ k. get_elem? ms (back m n k) ≡ some t) here at)
        | no later ↦
            Chain-Slots ms latest t.oldest_epoch count (suc i) rest j (omega arith) (omega arith)
      ]
