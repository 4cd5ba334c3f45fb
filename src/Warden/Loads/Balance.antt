-- ===== src/Warden/Loads/Balance.antt =====
-- The loads stay within one of each other, and only servers of the heap are chosen.
use atomix.Base.{
  ℕ, ◌+◌, ◌≡◌, ◌≢◌, ◌≤◌, refl, ◌⊎◌, inl, inr, Bool, true, false, none, some, List, [], ◌∷◌, ◌++◌,
  Bytes, arith, Option-cases, Bool-cases, if◌then◌else◌,
}
use atomix.Warden.Loads.{
  RangeInfo, RangeAssignment, Load, load_lt, pop_from, pop, Servings, push_range, Assigned,
  assign_ranges,
}

abbrev pub All {ℓ κ} : {A : Type ℓ} → (A → Type κ) → List A → Type κ
All P [] = Unit
All P (x ∷ xs) = P x × All P xs

pub All-append {ℓ κ} :
    {A : Type ℓ} (P : A → Type κ) (xs ys : List A) → All P xs → All P ys → All P (xs ++ ys)
All-append P [] ys h k = k
All-append P (x ∷ xs) ys h k = (h.0, All-append P xs ys h.1 k)

-- Every load is `lo` or one more.
abbrev pub Within : ℕ → List Load → Type 0
Within lo = All λ l. (lo ≤ l.count) × (l.count ≤ lo + 1)

abbrev AtLeast : ℕ → List Load → Type 0
AtLeast n [] = Unit {0}
AtLeast n (l ∷ ls) = (n ≤ l.count) × AtLeast n ls

-- `pop_from` keeps what holds of all loads.
pub pop_from-All :
    (P : Load → Type 0) (a : Load) (bs : List Load)
    → P a
    → All P bs
    → P (pop_from a bs).0 × All P (pop_from a bs).1
unfolding pop_from
pop_from-All P a [] h k = (h, k)
pop_from-All P a (b ∷ bs) h k =
    let ih = pop_from-All P b bs k.0 k.1 in
    elim (Bool-cases (load_lt (pop_from b bs).0 a)) [
      | inl e ↦ rw e (ih.0, (h, ih.1))
      | inr e ↦ rw e (h, k)
    ]

AtLeast-mono : (n m : ℕ) (ls : List Load) → m ≤ n → AtLeast n ls → AtLeast m ls
AtLeast-mono n m [] h a = tt
AtLeast-mono n m (l ∷ ls) h a = (omega arith, AtLeast-mono n m ls h a.1)

load_lt-count : (a b : Load) → load_lt a b ≡ true → a.count ≤ b.count
unfolding load_lt
load_lt-count a b h = ground arith

load_lt-count_false : (a b : Load) → load_lt a b ≡ false → b.count ≤ a.count
unfolding load_lt
load_lt-count_false a b h = ground arith

-- `a` against the least of the others: the least of all is no greater than any.
choose_least :
    (a b : Load) (bs : List Load) (p : Load × List Load)
    → AtLeast p.0.count p.1 × (p.0.count ≤ b.count) × AtLeast p.0.count bs
    → (t : Bool) → load_lt p.0 a ≡ t
    → let q : Load × List Load = if t then (p.0, a ∷ p.1) else (a, b ∷ bs) in
      AtLeast q.0.count q.1 × (q.0.count ≤ a.count) × AtLeast q.0.count (b ∷ bs)
choose_least a b bs p (left, first, others) true e =
    let le = load_lt-count p.0 a e in ((le, left), le, (first, others))
choose_least a b bs p (left, first, others) false e =
    let le = load_lt-count_false p.0 a e in
    let bound = AtLeast-mono p.0.count a.count bs le others in
    ((omega arith, bound), omega arith, (omega arith, bound))

-- What is left has no smaller load, nor has the list.
pop_from-least :
    (a : Load) (bs : List Load)
    → AtLeast (pop_from a bs).0.count (pop_from a bs).1
      × ((pop_from a bs).0.count ≤ a.count)
      × AtLeast (pop_from a bs).0.count bs
unfolding pop_from
pop_from-least a [] = (tt, omega arith, tt)
pop_from-least a (b ∷ bs) =
    choose_least a b bs (pop_from b bs) (pop_from-least b bs) (load_lt (pop_from b bs).0 a) refl

raise_Within : (lo : ℕ) (ls : List Load) → Within lo ls → AtLeast (lo + 1) ls → Within (lo + 1) ls
raise_Within lo [] w a = tt
raise_Within lo (l ∷ ls) w a = ((a.0, omega arith), raise_Within lo ls w.1 a.1)

le-or-eq : (a b : ℕ) → a ≤ b → (a ≡ b) ⊎ (a + 1 ≤ b)
le-or-eq a b h = ground arith

pop-ne-none : (heap : List Load) → heap ≢ [] → pop heap ≢ none
unfolding pop
pop-ne-none [] ne e = ne refl
pop-ne-none (a ∷ bs) ne e = cc

-- The heap after its least load has grown by one.
pub grown_Within :
    (lo : ℕ) (next : Load) (rest : List Load)
    → (lo ≤ next.count) × (next.count ≤ lo + 1)
    → Within lo rest
    → AtLeast next.count rest
    → (lo' : ℕ) × Within lo' (record { count = next.count + 1; server = next.server } ∷ rest)
grown_Within lo next rest h w a = elim (le-or-eq lo next.count h.0) [
  | inl e ↦ (lo, ((omega arith, omega arith), w))
  | inr lt ↦ (
    lo + 1,
    (
      (omega arith, omega arith),
      raise_Within lo rest w (AtLeast-mono next.count (lo + 1) rest lt a),
    ),
  )
]

pub pop-inv :
    (P : Load → Type 0) (heap : List Load) (next : Load) (rest : List Load)
    → pop heap ≡ some (next, rest)
    → All P heap
    → P next × All P rest × AtLeast next.count rest
unfolding pop
pop-inv P [] next rest e h = absurd (ground arith)
pop-inv P (a ∷ bs) next rest e h =
    let first : (pop_from a bs).0 ≡ next = ground arith in
    let others : (pop_from a bs).1 ≡ rest = ground arith in
    let keep = pop_from-All P a bs h.0 h.1 in
    rw (← first, ← others) (keep.0, keep.1, (pop_from-least a bs).0)

-- Loads that differ by one at most still do after every range is assigned.
pub assign_ranges-Within :
    (rs : List RangeInfo) (heap : List Load) (m : Servings) (done : List RangeAssignment)
    (out : Assigned)
    → ((lo : ℕ) × Within lo heap)
    → assign_ranges rs heap m done ≡ some out
    → (lo : ℕ) × Within lo out.heap
unfolding assign_ranges
assign_ranges-Within [] heap m done out w e = let same : out.heap ≡ heap = ground arith in rw same w
assign_ranges-Within (r ∷ rs) heap m done out w e = elim (Option-cases (pop heap)) [
  | inl empty ↦ absurd (ground arith)
  | inr ((next, rest), least) ↦
      let (h, kept, bound) = pop-inv _ heap next rest least w.1 in
      assign_ranges-Within rs (record { count = next.count + 1; server = next.server } ∷ rest)
        (push_range next.server r m) (done ++ record { assignee = next.server; range = r } ∷ []) out
        (grown_Within w.0 next rest h kept bound) (ground arith)
]

-- With a server in the heap the loop never panics, and it assigns to servers of the heap only.
pub assign_ranges_total :
    (P : Bytes → Type 0) (rs : List RangeInfo) (heap : List Load) (m : Servings)
    (done : List RangeAssignment)
    → heap ≢ []
    → All (λ l. P l.server) heap
    → All (λ a. P a.assignee) done
    → (out : Assigned) × (assign_ranges rs heap m done ≡ some out)
      × All (λ a. P a.assignee) out.updates
unfolding assign_ranges
assign_ranges_total P [] heap m done ne h d =
    (record { heap = heap; servings = m; updates = done }, refl, d)
assign_ranges_total P (r ∷ rs) heap m done ne h d = elim (Option-cases (pop heap)) [
  | inl empty ↦ absurd (pop-ne-none heap ne empty)
  | inr ((next, rest), least) ↦
      let (p, kept, bound) = pop-inv (λ l. P l.server) heap next rest least h in
      let (out, runs, ok) =
        assign_ranges_total P rs (record { count = next.count + 1; server = next.server } ∷ rest)
          (push_range next.server r m) (done ++ record { assignee = next.server; range = r } ∷ [])
          (λ e. cc) (p, kept) (All-append (λ a. P a.assignee) done _ d (p, tt)) in
      (out, ground arith, ok)
]
