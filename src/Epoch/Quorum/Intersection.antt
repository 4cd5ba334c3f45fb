-- ===== src/Epoch/Quorum/Intersection.antt =====
-- A majority that accepted an epoch meets every majority that a reader hears.
use atomix.Base.{
  ℕ, suc, ◌+◌, ◌≡◌, ◌<◌, ◌≤◌, Bool, true, false, Option, none, some, List, [], ◌∷◌, arith,
  ℕ_discrete, ite, refl, ◌∙◌, ap,
}
use mathlib.Core.List.{Permᴰ}
use atomix.Epoch.Storage.{compare_exchange}
use atomix.Epoch.Majority
use atomix.Epoch.Majority.{length, update_epoch}
use atomix.Epoch.Majority.Counts.{successes, votes, update_epoch_majority, read_epoch_majority}
use atomix.Epoch.Publisher
use atomix.Epoch.Publisher.{set_epoch, begin_set, finish_set}
use atomix.Epoch.Quorum.{Delivery, lost, unheard, answered, deliver, set_epochs, read_epochs}

abbrev pub accepted : List (ℕ × Bool) → List Bool
accepted [] = []
accepted ((p, b) ∷ ps) = b ∷ accepted ps

-- The same publishers at a later time, when none has a smaller epoch.
abbrev pub Later : List (ℕ × Bool) → List (ℕ × Bool) → Type 0
Later [] [] = Unit {0}
Later ((p, _) ∷ ps) ((q, _) ∷ qs) = (p ≤ q) × Later ps qs
Later _ _ = ⊥

-- A publisher does not both accept an epoch and later answer with a smaller one.
shared :
    (epoch v : ℕ) (ps : List (ℕ × Delivery)) (later : List (ℕ × Bool))
    → v < epoch
    → Later (set_epochs epoch ps) later
    → successes (accepted (set_epochs epoch ps)) + votes v (read_epochs later) ≤ length later
unfolding set_epochs read_epochs Publisher.read_epoch deliver set_epoch begin_set finish_set
    compare_exchange
shared epoch v [] [] h l = omega arith
shared epoch v ((p, d) ∷ ps) [] h l = elim l [ ]
shared epoch v [] ((q, b) ∷ qs) h l = elim l [ ]
shared epoch v ((p, lost) ∷ ps) ((q, true) ∷ qs) h l = ground (arith, shared epoch v ps qs h l.1)
shared epoch v ((p, unheard) ∷ ps) ((q, true) ∷ qs) h l = ground (arith, shared epoch v ps qs h l.1)
shared epoch v ((p, answered) ∷ ps) ((q, true) ∷ qs) h l =
    ground (arith, shared epoch v ps qs h l.1)
shared epoch v ((p, lost) ∷ ps) ((q, false) ∷ qs) h l = ground (arith, shared epoch v ps qs h l.1)
shared epoch v ((p, unheard) ∷ ps) ((q, false) ∷ qs) h l =
    ground (arith, shared epoch v ps qs h l.1)
shared epoch v ((p, answered) ∷ ps) ((q, false) ∷ qs) h l =
    ground (arith, shared epoch v ps qs h l.1)

Later-length :
    (epoch : ℕ) (ps : List (ℕ × Delivery)) (later : List (ℕ × Bool))
    → Later (set_epochs epoch ps) later
    → (length (accepted (set_epochs epoch ps)) ≡ length later)
      × (length (read_epochs later) ≡ length later)
unfolding set_epochs read_epochs
Later-length epoch [] [] l = (refl, refl)
Later-length epoch ((p, d) ∷ ps) [] l = elim l [ ]
Later-length epoch [] ((q, b) ∷ qs) l = elim l [ ]
Later-length epoch ((p, d) ∷ ps) ((q, true) ∷ qs) l =
    let ih = Later-length epoch ps qs l.1 in (ap suc ih.0, ap suc ih.1)
Later-length epoch ((p, d) ∷ ps) ((q, false) ∷ qs) l =
    let ih = Later-length epoch ps qs l.1 in (ap suc ih.0, ap suc ih.1)

abbrev weigh {ℓ} : {A : Type ℓ} → (A → ℕ) → List A → ℕ
weigh f [] = 0
weigh f (x ∷ xs) = f x + weigh f xs

weigh-Perm : {A : Type 0} (f : A → ℕ) {as' bs : List A} → Permᴰ as' bs → weigh f as' ≡ weigh f bs
weigh-Perm f Permᴰ.nil = refl
weigh-Perm f (Permᴰ.cons e d) = ground (arith, ap f e, weigh-Perm f d)
weigh-Perm f (Permᴰ.swap e e') = ground (arith, ap f e, ap f e')
weigh-Perm f (Permᴰ.trans d d') = weigh-Perm f d ∙ weigh-Perm f d'

abbrev success : Bool → ℕ
success true = 1
success false = 0

abbrev vote : ℕ → Option ℕ → ℕ
vote v none = 0
vote v (some e) = ite (ℕ_discrete v e) 1 0

successes-weigh :
    (rs : List Bool) → (successes rs ≡ weigh success rs) × (length rs ≡ weigh (λ (b : Bool). 1) rs)
successes-weigh [] = (refl, refl)
successes-weigh (true ∷ rs) = ground (arith, successes-weigh rs)
successes-weigh (false ∷ rs) = ground (arith, successes-weigh rs)

votes-weigh :
    (v : ℕ) (rs : List (Option ℕ))
    → (votes v rs ≡ weigh (vote v) rs) × (length rs ≡ weigh (λ (b : Option ℕ). 1) rs)
votes-weigh v [] = (refl, refl)
votes-weigh v (none ∷ rs) = ground (arith, votes-weigh v rs)
votes-weigh v (some e ∷ rs) = ground (arith, votes-weigh v rs)

successes-Perm :
    {as' bs : List Bool} → Permᴰ as' bs → (successes as' ≡ successes bs) × (length as' ≡ length bs)
successes-Perm {as'} {bs} d = ground (
  arith,
  weigh-Perm success d,
  weigh-Perm (λ (b : Bool). 1) d,
  successes-weigh as',
  successes-weigh bs,
)

votes-Perm :
    (v : ℕ) {as' bs : List (Option ℕ)}
    → Permᴰ as' bs
    → (votes v as' ≡ votes v bs) × (length as' ≡ length bs)
votes-Perm v {as'} {bs} d = ground (
  arith,
  weigh-Perm (vote v) d,
  weigh-Perm (λ (b : Option ℕ). 1) d,
  votes-weigh v as',
  votes-weigh v bs,
)

-- Once a publisher set counts as updated to an epoch, a reader of the set returns no smaller epoch: the
-- requests reach the publishers one at a time, any of them and any answer may be lost, the answers
-- arrive in any order on both sides, and the publishers' epochs may have grown in between.
pub read_after_update :
    (epoch : ℕ) (ps : List (ℕ × Delivery)) (answers : List Bool) (later : List (ℕ × Bool))
    (heard : List (Option ℕ)) (v : ℕ)
    → Permᴰ (accepted (set_epochs epoch ps)) answers
    → update_epoch answers ≡ true
    → Later (set_epochs epoch ps) later
    → Permᴰ (read_epochs later) heard
    → Majority.read_epoch heard ≡ some v
    → epoch ≤ v
read_after_update epoch ps answers later heard v p updated l q read = ground (
  arith,
  successes-Perm p,
  votes-Perm v q,
  (update_epoch_majority answers).0 updated,
  (read_epoch_majority heard v).0 read,
  Later-length epoch ps later l,
  λ (h : v < epoch). shared epoch v ps later h l,
)
