-- ===== src/RangeServer/MemTable/Chain/Moves.antt =====
-- The chain of tables when slots are written or the ring turns.
use atomix.Base.{ℕ, zero, suc, ◌+◌, ◌<◌, ◌≤◌, ◌≡◌, inl, inr, sym, ◌∙◌, ap, some, List, arith}
use mathlib.Core.Path.{subst}
use atomix.RangeServer.MemTable.Entries.{SkipList}
use atomix.RangeServer.MemTable.Ring.{back, get_elem?}
use atomix.RangeServer.MemTable.Database.{flushed}
use atomix.RangeServer.MemTable.Chain.{Table, IsFlat, Empties, Chain}

zero_plus : (i : ℕ) → 0 + i ≡ i
zero_plus i = omega arith

add-suc : (j i : ℕ) → j + suc i ≡ suc j + i
add-suc j i = omega arith

module _ (sl : SkipList) where
  module _ (ms ms' : List (Table sl)) (m m' n latest latest' : ℕ) (grows : latest ≤ latest') where
    -- The `count` slots from the `i`-th on before are those from the `i'`-th on after.
    abbrev pub Same : (count i i' : ℕ) → Type 0
    Same count i i' =
        (j : ℕ) → j < count → get_elem? ms' (back m' n (j + i')) ≡ get_elem? ms (back m n (j + i))

    Same-zero :
        (count i i' : ℕ)
        → Same (suc count) i i'
        → get_elem? ms' (back m' n i') ≡ get_elem? ms (back m n i)
    Same-zero count i i' s =
        ap (λ k. get_elem? ms' (back m' n k)) (sym (zero_plus i'))
        ∙ s 0 (omega arith)
        ∙ ap (λ k. get_elem? ms (back m n k)) (zero_plus i)

    Same-suc : (count i i' : ℕ) → Same (suc count) i i' → Same count (suc i) (suc i')
    Same-suc count i i' s j h =
        ap (λ k. get_elem? ms' (back m' n k)) (add-suc j i')
        ∙ s (suc j) (omega arith)
        ∙ ap (λ k. get_elem? ms (back m n k)) (sym (add-suc j i))

    Empties-Same :
        (count i i' : ℕ)
        → Same count i i'
        → Empties sl ms m n latest count i
        → Empties sl ms' m' n latest' count i'
    Empties-Same zero i i' s c = tt
    Empties-Same (suc count) i i' s (t, at, flat, rest) = (
      t,
      Same-zero count i i' s ∙ at,
      (flat.0, flat.1, omega (arith, flat.2)),
      Empties-Same count (suc i) (suc i') (Same-suc count i i' s) rest,
    )

    pub Chain-Same :
        (bound count i i' : ℕ)
        → Same count i i'
        → Chain sl ms m n latest bound count i
        → Chain sl ms' m' n latest' bound count i'
    Chain-Same bound zero i i' s c = tt
    Chain-Same bound (suc count) i i' s (t, at, inl (flat, rest)) = (
      t,
      Same-zero count i i' s ∙ at,
      inl (
        (flat.0, flat.1, omega (arith, flat.2)),
        Empties-Same count (suc i) (suc i') (Same-suc count i i' s) rest,
      ),
    )
    Chain-Same bound (suc count) i i' s (t, at, inr (st, held, rest)) = (
      t,
      Same-zero count i i' s ∙ at,
      inr (st, held, Chain-Same t.oldest_epoch count (suc i) (suc i') (Same-suc count i i' s) rest),
    )

  module _ (ms : List (Table sl)) (m n latest : ℕ) where
    Empties-init :
        (count i : ℕ) → Empties sl ms m n latest (suc count) i → Empties sl ms m n latest count i
    Empties-init zero i c = tt
    Empties-init (suc count) i (t, at, flat, rest) = (t, at, flat, Empties-init count (suc i) rest)

    -- The chain without its last slot.
    pub Chain-init :
        (bound count i : ℕ)
        → Chain sl ms m n latest bound (suc count) i
        → Chain sl ms m n latest bound count i
    Chain-init bound zero i c = tt
    Chain-init bound (suc count) i (t, at, inl (flat, rest)) =
        (t, at, inl (flat, Empties-init count (suc i) rest))
    Chain-init bound (suc count) i (t, at, inr (st, held, rest)) =
        (t, at, inr (st, held, Chain-init t.oldest_epoch count (suc i) rest))

    same_table :
        (i : ℕ) (t u : Table sl)
        → get_elem? ms (back m n i) ≡ some t
        → get_elem? ms (back m n (0 + i)) ≡ some u
        → t ≡ u
    same_table i t u at at' =
        let e : 0 + i ≡ i = omega arith in
        let at'' : get_elem? ms (back m n i) ≡ some u =
          subst (λ k. get_elem? ms (back m n k) ≡ some u) e at' in
        cc

    pub Empties-last :
        (count i : ℕ) (u : Table sl)
        → Empties sl ms m n latest (suc count) i
        → get_elem? ms (back m n (count + i)) ≡ some u
        → IsFlat sl latest u
    Empties-last zero i u (t, at, flat, rest) at' =
        subst (IsFlat sl latest) (same_table i t u at at') flat
    Empties-last (suc count) i u (t, at, flat, rest) at' =
        Empties-last count (suc i) u rest
          (ap (λ k. get_elem? ms (back m n k)) (add-suc count i) ∙ at')

    -- The last slot of the chain is empty if it is flushed.
    pub Chain-last :
        (bound count i : ℕ) (u : Table sl)
        → Chain sl ms m n latest bound (suc count) i
        → get_elem? ms (back m n (count + i)) ≡ some u
        → u.status ≡ flushed
        → IsFlat sl latest u
    Chain-last bound count i u (t, at, inl (flat, rest)) at' st =
        Empties-last count i u (t, at, flat, rest) at'
    Chain-last bound zero i u (t, at, inr (imm, held, rest)) at' st =
        let e : t ≡ u = same_table i t u at at' in
        absurd (ground (arith, imm, st, ap (λ (k : Table sl). k.status) e))
    Chain-last bound (suc count) i u (t, at, inr (imm, held, rest)) at' st =
        Chain-last t.oldest_epoch count (suc i) u rest
          (ap (λ k. get_elem? ms (back m n k)) (add-suc count i) ∙ at') st

    Empties-some :
        (count i : ℕ)
        → Empties sl ms m n latest (suc count) i
        → (u : Table sl) × (get_elem? ms (back m n (count + i)) ≡ some u)
    Empties-some zero i (t, at, _, _) = (t, ap (λ k. get_elem? ms (back m n k)) (zero_plus i) ∙ at)
    Empties-some (suc count) i (t, at, flat, rest) =
        let ih = Empties-some count (suc i) rest in
        (ih.0, ap (λ k. get_elem? ms (back m n k)) (sym (add-suc count i)) ∙ ih.1)

    -- The last slot is there.
    pub Chain-some :
        (bound count i : ℕ)
        → Chain sl ms m n latest bound (suc count) i
        → (u : Table sl) × (get_elem? ms (back m n (count + i)) ≡ some u)
    Chain-some bound count i (t, at, inl (flat, rest)) = Empties-some count i (t, at, flat, rest)
    Chain-some bound zero i (t, at, inr _) =
        (t, ap (λ k. get_elem? ms (back m n k)) (zero_plus i) ∙ at)
    Chain-some bound (suc count) i (t, at, inr (imm, held, rest)) =
        let ih = Chain-some t.oldest_epoch count (suc i) rest in
        (ih.0, ap (λ k. get_elem? ms (back m n k)) (sym (add-suc count i)) ∙ ih.1)
