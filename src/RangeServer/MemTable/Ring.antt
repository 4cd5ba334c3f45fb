-- ===== src/RangeServer/MemTable/Ring.antt =====
-- Indices of the ring of memtables, and its slots.
use atomix.Base.{
  ℕ, zero, suc, ◌+◌, ◌-◌, ◌%◌, ◌<◌, ◌≤◌, ◌≡◌, ◌≢◌, ◌⊎◌, refl, ap, Option, none, some, List, [], ◌∷◌,
  arith,
}

-- `(mut_memtable_idx + num_write_buffers - i) % num_write_buffers`.
unfoldable pub back : (mut_idx n i : ℕ) → ℕ
back mut_idx n i = (mut_idx + n - i) % n

pub back-eq : (m n i : ℕ) → m < n → i < n → i ≤ m → back m n i ≡ m - i
unfolding back
back-eq m n i h h' l = grind arith

pub back-eq_wrapped : (m n i : ℕ) → m < n → i < n → m < i → back m n i ≡ m + n - i
unfolding back
back-eq_wrapped m n i h h' l = grind arith

pub back-lt : (m n i : ℕ) → m < n → back m n i < n
unfolding back
back-lt m n i h = grind arith

pub back-zero : (m n : ℕ) → m < n → back m n 0 ≡ m
back-zero m n h = ground (arith, back-eq m n 0)

pub back-inj : (m n i j : ℕ) → m < n → i < n → j < n → back m n i ≡ back m n j → i ≡ j
back-inj m n i j h p q e =
    ground (arith, back-eq m n i, back-eq m n j, back-eq_wrapped m n i, back-eq_wrapped m n j)

pub next-eq :
    (m n : ℕ) → m < n → ((m + 1 < n) × ((m + 1) % n ≡ m + 1)) ⊎ ((m + 1 ≡ n) × ((m + 1) % n ≡ 0))
next-eq m n h = grind arith

pub back-next : (m n i : ℕ) → m < n → i + 1 < n → back ((m + 1) % n) n (i + 1) ≡ back m n i
back-next m n i h p = ground (
  arith,
  next-eq m n,
  back-eq m n i,
  back-eq_wrapped m n i,
  back-eq ((m + 1) % n) n (i + 1),
  back-eq_wrapped ((m + 1) % n) n (i + 1),
)

pub back-back : (m n i : ℕ) → m < n → i < n → back m n (back m n i) ≡ i
back-back m n i h p = ground (
  arith,
  back-lt m n i h,
  back-eq m n i,
  back-eq_wrapped m n i,
  back-eq m n (back m n i),
  back-eq_wrapped m n (back m n i),
)

-- The next slot is the last one behind, if it is another one.
pub next-back : (m n : ℕ) → m < n → m ≢ (m + 1) % n → (1 < n) × ((m + 1) % n ≡ back m n (n - 1))
next-back m n h ne = ground (arith, next-eq m n h, back-eq m n (n - 1), back-eq_wrapped m n (n - 1))

module _ {A : Type 0} where
  abbrev pub get_elem? : List A → ℕ → Option A
  get_elem? [] i = none
  get_elem? (x ∷ xs) zero = some x
  get_elem? (x ∷ xs) (suc i) = get_elem? xs i

  -- A write out of bounds changes nothing.
  abbrev pub set : List A → ℕ → A → List A
  set [] i v = []
  set (x ∷ xs) zero v = v ∷ xs
  set (x ∷ xs) (suc i) v = x ∷ set xs i v

  pub get_elem?-set_self :
      (xs : List A) (i : ℕ) (v a : A) → get_elem? xs i ≡ some a → get_elem? (set xs i v) i ≡ some v
  get_elem?-set_self [] i v a h = ground (arith, h)
  get_elem?-set_self (x ∷ xs) zero v a h = refl
  get_elem?-set_self (x ∷ xs) (suc i) v a h = get_elem?-set_self xs i v a h

  pub get_elem?-set_ne :
      (xs : List A) (i j : ℕ) (v : A) → i ≢ j → get_elem? (set xs i v) j ≡ get_elem? xs j
  get_elem?-set_ne [] i j v h = refl
  get_elem?-set_ne (x ∷ xs) zero zero v h = absurd (h refl)
  get_elem?-set_ne (x ∷ xs) zero (suc j) v h = refl
  get_elem?-set_ne (x ∷ xs) (suc i) zero v h = refl
  get_elem?-set_ne (x ∷ xs) (suc i) (suc j) v h = get_elem?-set_ne xs i j v (λ e. h (ap suc e))
