-- ===== src/RangeServer/MemTable/Chain/Contents.antt =====
-- The entries of a list of tables when one of them is written.
use atomix.Base.{ℕ, ◌<◌, ◌≡◌, ◌⊎◌, inl, inr, sym, ◌∙◌, some, List, ℕ_discrete}
use mathlib.Core.Path.{subst}
use atomix.RangeServer.MemTable.Entries.{MemTableEntry, SkipList}
use atomix.RangeServer.MemTable.Ring.{get_elem?, set, get_elem?-set_ne, get_elem?-set_self}
use atomix.RangeServer.MemTable.Chain.{Table, StoredIn}

module _ (sl : SkipList) where
  open sl use {Entries, Has}

  module _ (ms : List (Table sl)) (n i : ℕ) (t u : Table sl) (at : get_elem? ms i ≡ some t) where
    -- What the new table has or had, and what is in the others, stays.
    pub StoredIn-set :
        (e : MemTableEntry)
        → (Has t.entries e → Has u.entries e)
        → StoredIn sl ms n e
        → StoredIn sl (set ms i u) n e
    StoredIn-set e keeps (j, h, (t', at', has)) = elim (ℕ_discrete i j) [
      | yes here ↦
          let same : t' ≡ t = cc in
          (
            j,
            h,
            (
              u,
              subst (λ k. get_elem? (set ms i u) k ≡ some u) here (get_elem?-set_self ms i u t at),
              keeps (subst (λ (k : Table sl). Has k.entries e) same has),
            ),
          )
      | no other ↦ (j, h, (t', get_elem?-set_ne ms i j u other ∙ at', has))
    ]

    -- Nothing else is added.
    pub of_StoredIn-set :
        (e : MemTableEntry) → StoredIn sl (set ms i u) n e → Has u.entries e ⊎ StoredIn sl ms n e
    of_StoredIn-set e (j, h, (t', at', has)) = elim (ℕ_discrete i j) [
      | yes here ↦
          let at'' : get_elem? (set ms i u) j ≡ some u =
            subst (λ k. get_elem? (set ms i u) k ≡ some u) here (get_elem?-set_self ms i u t at) in
          let same : t' ≡ u = cc in inl (subst (λ (k : Table sl). Has k.entries e) same has)
      | no other ↦ inr (j, h, (t', sym (get_elem?-set_ne ms i j u other) ∙ at', has))
    ]

    -- A table that is there has only stored entries.
    pub StoredIn-at : (e : MemTableEntry) → i < n → Has t.entries e → StoredIn sl ms n e
    StoredIn-at e h has = (i, h, (t, at, has))
