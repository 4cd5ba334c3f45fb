-- ===== src/RangeServer/MemTable/Plain.antt =====
-- A list of entries as a skip list, with a search through all of it. It shows that the laws of
-- `Entries.SkipList` can hold.
use atomix.Base.{
  ◌≡◌, ◌⊎◌, inl, inr, refl, ap, ◌∙◌, Bool, true, false, Bool-cases, Option, none, some, List, [],
  ◌∷◌, arith, if◌then◌else◌, bytes_lt_trans, bytes_lt_total, bytes_lt_irrefl,
}
use mathlib.Core.Path.{subst}
use atomix.RangeServer.MemTable.Entries.{MemTableEntry, entry_lt, SkipList}

abbrev pub Has : List MemTableEntry → MemTableEntry → Type 0
Has [] e = ⊥
Has (x ∷ s) e = (e ≡ x) ⊎ Has s e

abbrev pub least : MemTableEntry → Option MemTableEntry → MemTableEntry
least y none = y
least y (some e) = if entry_lt e y then e else y

-- The least of the entries that are not below `x`.
abbrev pub lower_bound : MemTableEntry → List MemTableEntry → Option MemTableEntry
lower_bound x [] = none
lower_bound x (y ∷ s) =
    let rest = lower_bound x s in if entry_lt y x then rest else some (least y rest)

-- A strict order has no entry that two others leave out.
entry_lt_split :
    (a b c : MemTableEntry) → entry_lt a b ≡ false → entry_lt b c ≡ false → entry_lt a c ≡ false
unfolding entry_lt
entry_lt_split a b c h k = ground (
  arith,
  bytes_lt_total a.key b.key,
  bytes_lt_total b.key c.key,
  bytes_lt_total a.key c.key,
  bytes_lt_trans a.key c.key b.key,
  bytes_lt_trans b.key a.key c.key,
  bytes_lt_trans c.key b.key a.key,
  bytes_lt_trans c.key a.key c.key,
  bytes_lt_irrefl a.key,
  bytes_lt_irrefl c.key,
)

entry_lt_irrefl : (a : MemTableEntry) → entry_lt a a ≡ false
unfolding entry_lt
entry_lt_irrefl a = ground (arith, bytes_lt_irrefl a.key)

entry_lt_asym : (a b : MemTableEntry) → entry_lt a b ≡ true → entry_lt b a ≡ false
unfolding entry_lt
entry_lt_asym a b h = ground (arith, bytes_lt_trans a.key b.key a.key, bytes_lt_irrefl a.key)

-- What the search finds.
abbrev pub Finds : MemTableEntry → List MemTableEntry → Option MemTableEntry → Type 0
Finds x s none = (e' : MemTableEntry) → Has s e' → entry_lt e' x ≡ true
Finds x s (some e) =
    Has s e
    × (entry_lt e x ≡ false)
    × ((e' : MemTableEntry) → Has s e' → entry_lt e' x ≡ false → entry_lt e' e ≡ false)

true_false : {A : Type 0} {b : Bool} → b ≡ true → b ≡ false → A
true_false h k = absurd (ground (arith, h, k))

Finds-below :
    (x y : MemTableEntry) (s : List MemTableEntry) (r : Option MemTableEntry)
    → entry_lt y x ≡ true
    → Finds x s r
    → Finds x (y ∷ s) r
Finds-below x y s none below f =
    λ e' has. elim has [ inl same ↦ ap (λ k. entry_lt k x) same ∙ below | inr old ↦ f e' old ]
Finds-below x y s (some e) below (has, not_below, lowest) = (
  inr has,
  not_below,
  λ e' has' up. elim has' [
    | inl same ↦ true_false (ap (λ k. entry_lt k x) same ∙ below) up
    | inr old ↦ lowest e' old up
  ],
)

Finds-least :
    (x y : MemTableEntry) (s : List MemTableEntry) (r : Option MemTableEntry)
    → entry_lt y x ≡ false
    → Finds x s r
    → Finds x (y ∷ s) (some (least y r))
Finds-least x y s none up f = (
  inl refl,
  up,
  λ e' has' up'. elim has' [
    | inl same ↦ ap (λ k. entry_lt k y) same ∙ entry_lt_irrefl y
    | inr old ↦ true_false (f e' old) up'
  ],
)
Finds-least x y s (some e) up (has, not_below, lowest) = elim (Bool-cases (entry_lt e y)) [
  | inl lower ↦ rw lower (
    inr has,
    not_below,
    λ e' has' up'. elim has' [
      | inl same ↦ ap (λ k. entry_lt k e) same ∙ entry_lt_asym e y lower
      | inr old ↦ lowest e' old up'
    ],
  )
  | inr not_lower ↦ rw not_lower (
    inl refl,
    up,
    λ e' has' up'. elim has' [
      | inl same ↦ ap (λ k. entry_lt k y) same ∙ entry_lt_irrefl y
      | inr old ↦ entry_lt_split e' e y (lowest e' old up') not_lower
    ],
  )
]

pub lower_bound-Finds : (x : MemTableEntry) (s : List MemTableEntry) → Finds x s (lower_bound x s)
lower_bound-Finds x [] = λ e' has. absurd has
lower_bound-Finds x (y ∷ s) = elim (Bool-cases (entry_lt y x)) [
  | inl below ↦ rw below (Finds-below x y s (lower_bound x s) below (lower_bound-Finds x s))
  | inr up ↦ rw up (Finds-least x y s (lower_bound x s) up (lower_bound-Finds x s))
]

abbrev pub plain : SkipList
plain = record {
  Entries = List MemTableEntry;
  Has = Has;
  empty = [];
  insert = ◌∷◌;
  lower_bound = lower_bound;
  not_has-empty = λ e has. has;
  has-insert = λ e s. inl refl;
  has-insert_other = λ e e' s has. inr has;
  of_has-insert = λ e e' s has. has;
  lower_bound-has =
      λ x s e found. let f = subst (Finds x s) found (lower_bound-Finds x s) in (f.0, f.1);
  lower_bound_least = λ x s e e' found. (subst (Finds x s) found (lower_bound-Finds x s)).2 e';
  lower_bound-none = λ x s e' found. subst (Finds x s) found (lower_bound-Finds x s) e';
}
