-- ===== src/Warden/Loads/Contents.antt =====
-- No range is lost or made up: the ranges of a map, as a list up to order.
use mathlib.Core.List.{Perm, perm_middle, perm_append_comm, append_assoc, map-append}
use mathlib.Core.List.Perm
use atomix.Base.{
  ◌+◌, ◌≡◌, refl, ap, some, List, [], ◌∷◌, ◌++◌, map, Bytes, arith, bytes_discrete, if_pos, if_neg,
  Option-cases, inl, inr,
}
use atomix.Warden.Loads.{
  RangeInfo, RangeAssignment, Load, pop, Servings, push_range, take_server, group, assignments,
  assign_to, Assigned, assign_ranges,
}

-- All ranges of a map.
abbrev pub ranges : Servings → List RangeInfo
ranges [] = []
ranges ((s, rs) ∷ m) = rs ++ ranges m

pub ranges-push_range :
    (s : Bytes) (r : RangeInfo) (m : Servings) → Perm (ranges (push_range s r m)) (r ∷ ranges m)
unfolding push_range
ranges-push_range s r [] = Perm.refl (r ∷ [])
ranges-push_range s r ((t, rs) ∷ m) = elim (bytes_discrete s t) [
  | yes p ↦ rw (if_pos _ p) (rw (append_assoc rs (r ∷ []) (ranges m)) (perm_middle rs (ranges m)))
  | no p ↦ rw (if_neg _ p) (
      Perm.trans (Perm.append (Perm.refl rs) (ranges-push_range s r m)) (perm_middle rs (ranges m)))
]

swap_front : (xs ys zs : List RangeInfo) → Perm (xs ++ (ys ++ zs)) (ys ++ (xs ++ zs))
swap_front xs ys zs =
    rw (← append_assoc xs ys zs, ← append_assoc ys xs zs)
      (Perm.append_right zs (perm_append_comm xs ys))

pub ranges-take_server :
    (s : Bytes) (m : Servings) → Perm ((take_server s m).0 ++ ranges (take_server s m).1) (ranges m)
unfolding take_server
ranges-take_server s [] = Perm.refl []
ranges-take_server s ((t, rs) ∷ m) =
    let ih = ranges-take_server s m in
    elim (bytes_discrete s t) [
      | yes p ↦ rw (if_pos (bytes_discrete s t) p (rs, m) kept) (Perm.refl (rs ++ ranges m))
      | no p ↦
          rw (if_neg (bytes_discrete s t) p (rs, m) kept)
            (Perm.trans (swap_front T.0 rs (ranges T.1)) (Perm.append_left rs ih))
    ]
  where
    T : List RangeInfo × Servings
    T = take_server s m

    kept : List RangeInfo × Servings
    kept = (T.0, (t, rs) ∷ T.1)

pub ranges-group :
    (as' : List RangeAssignment) (m : Servings)
    → Perm (ranges (group as' m)) (map (λ a. a.range) as' ++ ranges m)
unfolding group
ranges-group [] m = Perm.refl (ranges m)
ranges-group (a ∷ as') m = Perm.trans (ranges-group as' (push_range a.assignee a.range m)) (
    Perm.trans
      (Perm.append (Perm.refl (map (λ b. b.range) as')) (ranges-push_range a.assignee a.range m))
      (perm_middle (map (λ b. b.range) as') (ranges m)))

map-assign_to : (s : Bytes) (rs : List RangeInfo) → map (λ a. a.range) (assign_to s rs) ≡ rs
unfolding assign_to
map-assign_to s [] = refl
map-assign_to s (r ∷ rs) = ap (◌∷◌ r) (map-assign_to s rs)

pub map-assignments : (m : Servings) → map (λ a. a.range) (assignments m) ≡ ranges m
unfolding assignments
map-assignments [] = refl
map-assignments ((s, rs) ∷ m) = rw (map-append, map-assign_to s rs, map-assignments m)

-- The ranges to assign are all assigned, and the map keeps those that it had.
pub assign_ranges-ranges :
    (rs : List RangeInfo) (heap : List Load) (m : Servings) (done : List RangeAssignment)
    {out : Assigned}
    → assign_ranges rs heap m done ≡ some out
    → Perm (ranges out.servings) (rs ++ ranges m)
unfolding assign_ranges
assign_ranges-ranges [] heap m done {out} e =
    let same : out.servings ≡ m = ground arith in rw same (Perm.refl (ranges m))
assign_ranges-ranges (r ∷ rs) heap m done {out} e = elim (Option-cases (pop heap)) [
  | inl empty ↦ absurd (ground arith)
  | inr ((next, rest), least) ↦
      Perm.trans
        (assign_ranges-ranges rs (record { count = next.count + 1; server = next.server } ∷ rest)
          (push_range next.server r m) (done ++ record { assignee = next.server; range = r } ∷ [])
          {out = out} (ground arith))
        (Perm.trans (Perm.append_left rs (ranges-push_range next.server r m))
          (perm_middle rs (ranges m)))
]
