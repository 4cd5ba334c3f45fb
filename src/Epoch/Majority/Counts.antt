-- ===== src/Epoch/Majority/Counts.antt =====
-- The loops agree with counting all answers.
use atomix.Base.{
  ℕ, suc, ◌+◌, ◌*◌, ◌/◌, ◌<◌, ◌≤◌, ◌≡◌, ◌≢◌, ◌↔◌, Bool, true, false, Option, none, some, List, [],
  ◌∷◌, leb, ite, ℕ_discrete, lookup, insert, lookup-insert, arith,
}
use mathlib.Core.Path.{sym, subst}
use atomix.Epoch.Majority.{
  length, publisher_majority_count, await_successes, update_epoch, or_zero, count_epochs,
  read_epoch,
}

-- How many of the answers are successes.
abbrev pub successes : List Bool → ℕ
successes [] = 0
successes (true ∷ rs) = suc (successes rs)
successes (false ∷ rs) = successes rs

-- How many of the answers are the epoch `v`.
abbrev pub votes : ℕ → List (Option ℕ) → ℕ
votes v [] = 0
votes v (none ∷ rs) = votes v rs
votes v (some e ∷ rs) = ite (ℕ_discrete v e) (suc (votes v rs)) (votes v rs)

await_successes-successes :
    (m n : ℕ) (rs : List Bool) → n < m → await_successes m n rs ≡ leb m (n + successes rs)
unfolding await_successes
await_successes-successes m n [] h = ground arith
await_successes-successes m n (false ∷ rs) h = await_successes-successes m n rs h
await_successes-successes m n (true ∷ rs) h = ground (arith, await_successes-successes m (n + 1) rs)

-- A publisher set counts as updated exactly when more than half of its publishers accepted the epoch,
-- in whatever order they answer.
pub update_epoch_majority :
    (answers : List Bool) → (update_epoch answers ≡ true) ↔ (length answers < 2 * successes answers)
unfolding update_epoch publisher_majority_count
update_epoch_majority answers =
    ground (arith, await_successes-successes (length answers / 2 + 1) 0 answers)

votes-length : (v : ℕ) (rs : List (Option ℕ)) → votes v rs ≤ length rs
votes-length v [] = omega arith
votes-length v (none ∷ rs) = omega (arith, votes-length v rs)
votes-length v (some e ∷ rs) = ground (arith, votes-length v rs)

-- Two epochs share the answers.
votes-length_ne : (v w : ℕ) (rs : List (Option ℕ)) → v ≢ w → votes v rs + votes w rs ≤ length rs
votes-length_ne v w [] ne = omega arith
votes-length_ne v w (none ∷ rs) ne = omega (arith, votes-length_ne v w rs ne)
votes-length_ne v w (some e ∷ rs) ne = ground (arith, votes-length_ne v w rs ne)

abbrev counted : ℕ → List (ℕ × ℕ) → ℕ
counted v counts = or_zero (lookup ℕ_discrete v counts)

counted-insert :
    (v e n : ℕ) (counts : List (ℕ × ℕ))
    → counted v (insert ℕ_discrete e n counts) ≡ ite (ℕ_discrete v e) n (counted v counts)
counted-insert v e n counts = ground (arith, lookup-insert ℕ_discrete v e n counts)

-- An answer moves from those to come to those that are counted.
counted-step :
    (w e : ℕ) (counts : List (ℕ × ℕ)) (rs : List (Option ℕ))
    → counted w (insert ℕ_discrete e (counted e counts + 1) counts) + votes w rs
      ≡ counted w counts + votes w (some e ∷ rs)
counted-step w e counts rs = ground (arith, counted-insert w e (counted e counts + 1) counts)

count_epochs-votes :
    (m v : ℕ) (counts : List (ℕ × ℕ)) (rs : List (Option ℕ))
    → count_epochs m counts rs ≡ some v
    → m ≤ counted v counts + votes v rs
unfolding count_epochs
count_epochs-votes m v counts [] h = ground arith
count_epochs-votes m v counts (none ∷ rs) h = count_epochs-votes m v counts rs h
count_epochs-votes m v counts (some e ∷ rs) h = ground (
  arith,
  count_epochs-votes m v (insert ℕ_discrete e (counted e counts + 1) counts) rs,
  counted-step v e counts rs,
)

-- An epoch that has enough answers is returned if no other can have.
count_epochs_finds :
    (m v : ℕ) (counts : List (ℕ × ℕ)) (rs : List (Option ℕ))
    → counted v counts < m
    → m ≤ counted v counts + votes v rs
    → ((w : ℕ) → v ≢ w → counted w counts + votes w rs < m)
    → count_epochs m counts rs ≡ some v
unfolding count_epochs
count_epochs_finds m v counts [] low enough others = ground arith
count_epochs_finds m v counts (none ∷ rs) low enough others =
    count_epochs_finds m v counts rs low enough others
count_epochs_finds m v counts (some e ∷ rs) low enough others =
    let counts' = insert ℕ_discrete e (counted e counts + 1) counts in
    ground (
      arith,
      others e,
      counted-insert v e (counted e counts + 1) counts,
      counted-step v e counts rs,
      λ (below : counted v counts' < m).
          count_epochs_finds m v counts' rs below
            (subst (λ k. m ≤ k) (sym (counted-step v e counts rs)) enough)
            (λ w ne. subst (λ k. k < m) (sym (counted-step w e counts rs)) (others w ne)),
    )

-- A reader returns an epoch exactly when more than half of the publishers sent it, whatever the order
-- of the answers and whatever the others sent.
pub read_epoch_majority :
    (answers : List (Option ℕ)) (v : ℕ)
    → (read_epoch answers ≡ some v) ↔ (length answers < 2 * votes v answers)
unfolding read_epoch publisher_majority_count lookup
read_epoch_majority answers v = (
  (λ read. ground (arith, count_epochs-votes (length answers / 2 + 1) v [] answers read)),
  λ enough.
      count_epochs_finds (length answers / 2 + 1) v [] answers (ground arith) (ground arith)
        (λ w ne. ground (arith, votes-length_ne v w answers ne)),
)
