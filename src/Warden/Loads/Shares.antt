-- ===== src/Warden/Loads/Shares.antt =====
-- The numbers of ranges that the loop over the ranges to assign leaves the servers of its heap with.
use atomix.Base.{
  ℕ, ◌+◌, ◌≡◌, ◌≢◌, ◌≤◌, refl, sym, inl, inr, Bytes, bytes_discrete, ite, some, List, [], ◌∷◌, ◌++◌,
  arith, Option-cases, Bool-cases,
}
use atomix.Warden.Loads.{
  RangeInfo, RangeAssignment, Load, load_lt, pop_from, pop, length, Servings, push_range, Assigned,
  assign_ranges,
}
use atomix.Warden.Loads.Balance.{
  All, Within, pop_from-All, pop-inv, grown_Within, assign_ranges_total,
}

-- How many ranges the map has for a server.
abbrev pub served : Bytes → Servings → ℕ
served s [] = 0
served s ((k, rs) ∷ m) = ite (bytes_discrete s k) (length rs) (served s m)

-- Every load is the number of the server's ranges in the map.
abbrev pub Counted : Servings → List Load → Type 0
Counted m = All λ l. l.count ≡ served l.server m

abbrev Differs : Bytes → List Load → Type 0
Differs s = All λ l. l.server ≢ s

-- No server is twice in the heap.
abbrev pub Distinct : List Load → Type 0
Distinct [] = Unit {0}
Distinct (l ∷ ls) = Differs l.server ls × Distinct ls

-- Every server of the heap has `lo` ranges or one more.
abbrev pub Even : ℕ → Servings → List Load → Type 0
Even lo m = All λ l. (lo ≤ served l.server m) × (served l.server m ≤ lo + 1)

length-append : (rs : List RangeInfo) (r : RangeInfo) → length (rs ++ r ∷ []) ≡ length rs + 1
length-append [] r = refl
length-append (x ∷ rs) r = omega (arith, length-append rs r)

served-push_range :
    (j s : Bytes) (r : RangeInfo) (m : Servings)
    → served j (push_range s r m) ≡ ite (bytes_discrete j s) (served j m + 1) (served j m)
unfolding push_range
served-push_range j s r [] = ground arith
served-push_range j s r ((k, rs) ∷ m) =
    ground (arith, served-push_range j s r m, length-append rs r)

pop_from-Distinct :
    (a : Load) (bs : List Load)
    → Distinct (a ∷ bs)
    → Distinct ((pop_from a bs).0 ∷ (pop_from a bs).1)
unfolding pop_from
pop_from-Distinct a [] h = h
pop_from-Distinct a (b ∷ bs) h =
    let ih = pop_from-Distinct b bs h.1 in
    let keep = pop_from-All (λ l. l.server ≢ a.server) b bs h.0.0 h.0.1 in
    elim (Bool-cases (load_lt (pop_from b bs).0 a)) [
      | inl e ↦ rw e (((λ q. keep.0 (sym q)), ih.0), (keep.1, ih.1))
      | inr e ↦ rw e h
    ]

-- What holds of the load that `pop_from` takes and of those that it leaves holds of all.
of_pop_from-All :
    (P : Load → Type 0) (a : Load) (bs : List Load)
    → P (pop_from a bs).0
    → All P (pop_from a bs).1
    → All P (a ∷ bs)
unfolding pop_from
of_pop_from-All P a [] = λ h k. (h, k)
of_pop_from-All P a (b ∷ bs) = elim (Bool-cases (load_lt (pop_from b bs).0 a)) [
  | inl e ↦ rw e (λ h k. (k.0, of_pop_from-All P b bs h k.1))
  | inr e ↦ rw e (λ h k. (h, k))
]

pop-Distinct :
    (heap : List Load) (next : Load) (rest : List Load)
    → pop heap ≡ some (next, rest)
    → Distinct heap
    → Distinct (next ∷ rest)
unfolding pop
pop-Distinct [] next rest e h = absurd (ground arith)
pop-Distinct (a ∷ bs) next rest e h =
    let first : (pop_from a bs).0 ≡ next = ground arith in
    let others : (pop_from a bs).1 ≡ rest = ground arith in
    rw (← first, ← others) (pop_from-Distinct a bs h)

of_pop-All :
    (P : Load → Type 0) (heap : List Load) (next : Load) (rest : List Load)
    → pop heap ≡ some (next, rest)
    → All P (next ∷ rest)
    → All P heap
unfolding pop
of_pop-All P [] next rest e = λ h. tt
of_pop-All P (a ∷ bs) next rest e =
    let first : (pop_from a bs).0 ≡ next = ground arith in
    let others : (pop_from a bs).1 ≡ rest = ground arith in
    rw (← first, ← others) (λ h. of_pop_from-All P a bs h.0 h.1)

Counted-push_range :
    (s : Bytes) (r : RangeInfo) (m : Servings) (ls : List Load)
    → Differs s ls
    → Counted m ls
    → Counted (push_range s r m) ls
Counted-push_range s r m [] d c = tt
Counted-push_range s r m (l ∷ ls) d c = (
  ground (arith, served-push_range l.server s r m, d.0, c.0),
  Counted-push_range s r m ls d.1 c.1,
)

Within-Even : (lo : ℕ) (m : Servings) (ls : List Load) → Within lo ls → Counted m ls → Even lo m ls
Within-Even lo m [] w c = tt
Within-Even lo m (l ∷ ls) w c =
    ((omega (arith, w.0, c.0), omega (arith, w.0, c.0)), Within-Even lo m ls w.1 c.1)

assigned_Even :
    (rs : List RangeInfo) (heap : List Load) (m : Servings) (done : List RangeAssignment)
    (out : Assigned)
    → ((lo : ℕ) × Within lo heap)
    → Counted m heap
    → Distinct heap
    → assign_ranges rs heap m done ≡ some out
    → (lo : ℕ) × Even lo out.servings heap
unfolding assign_ranges
assigned_Even [] heap m done out w c d e =
    let same : m ≡ out.servings = ground arith in rw (← same) (w.0, Within-Even w.0 m heap w.1 c)
assigned_Even (r ∷ rs) heap m done out w c d e = elim (Option-cases (pop heap)) [
  | inl empty ↦ absurd (ground arith)
  | inr ((next, rest), least) ↦
      let (h, kept, bound) = pop-inv _ heap next rest least w.1 in
      let (count, counts, _) = pop-inv _ heap next rest least c in
      let apart = pop-Distinct heap next rest least d in
      let grown : Load = record { count = next.count + 1; server = next.server } in
      let (lo, ev) =
        assigned_Even rs (grown ∷ rest) (push_range next.server r m)
          (done ++ record { assignee = next.server; range = r } ∷ []) out
          (grown_Within w.0 next rest h kept bound)
          (
            ground (arith, served-push_range next.server next.server r m, count),
            Counted-push_range next.server r m rest apart.0 counts,
          )
          apart (ground arith) in
      (lo, of_pop-All _ heap next rest least ev)
]

unit_All : (ls : List Load) → All (λ l. Unit {0}) ls
unit_All [] = tt
unit_All (l ∷ ls) = (tt, unit_All ls)

-- Where a nonempty heap has no server twice, the loads are the numbers of the servers' ranges in the
-- map, and they differ by one at most: the loop over the ranges does not panic, and in the map that it
-- leaves the numbers of ranges of the servers of the heap still differ by one at most.
pub assign_ranges-Even :
    (rs : List RangeInfo) (heap : List Load) (m : Servings) (lo : ℕ)
    → heap ≢ []
    → Distinct heap
    → Counted m heap
    → Within lo heap
    → (out : Assigned) × (assign_ranges rs heap m [] ≡ some out)
      × ((lo' : ℕ) × Even lo' out.servings heap)
assign_ranges-Even rs heap m lo ne d c w =
    let (out, runs, _) = assign_ranges_total (λ b. Unit {0}) rs heap m [] ne (unit_All heap) tt in
    (out, runs, assigned_Even rs heap m [] out (lo, w) c d runs)
