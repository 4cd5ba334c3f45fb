-- ===== src/Warden/Assign/Ranges.antt =====
-- A run of the computation loses no range and makes none up.
use mathlib.Core.List.{Perm, append_assoc, append-nil}
use mathlib.Core.List.Perm
use atomix.Base.{
  ℕ, ◌+◌, ◌≡◌, refl, ◌∙◌, Bool, true, Option, none, some, List, [], ◌∷◌, ◌++◌, map, arith,
  ℕ_discrete, lookup, insert, contains, lookup-insert, Option-cases, inl, inr, if_pos,
}
use atomix.Warden.Servers.{HostInfo}
use atomix.Warden.Loads.{
  RangeInfo, RangeAssignment, Servings, take_server, group, assignments, Assigned,
}
use atomix.Warden.Loads.Contents.{
  ranges, ranges-take_server, ranges-group, map-assignments, assign_ranges-ranges,
}
use atomix.Warden.Assign.{
  State, panics, assigned, difference, current_servings, take_removed, ids, retain_unassigned, trim,
  publish, finish, reassign, run_assignment_computation,
}

abbrev pub or_empty : Option (List RangeAssignment) → List RangeAssignment
or_empty none = []
or_empty (some as') = as'

-- The ranges that are assigned at the current version.
abbrev pub assigned_ranges : State → List RangeInfo
assigned_ranges s =
    map (λ a. a.range) (or_empty (lookup ℕ_discrete s.current_version s.range_assignments))

take_removed-ranges :
    (hs : List HostInfo) (m : Servings)
    → Perm ((take_removed hs m).0 ++ ranges (take_removed hs m).1) (ranges m)
unfolding take_removed
take_removed-ranges [] m = Perm.refl (ranges m)
take_removed-ranges (h ∷ hs) m =
    let (mine, rest) = take_server h.identity.name m in
    rw (append_assoc mine (take_removed hs rest).0 (ranges (take_removed hs rest).1)) (
      Perm.trans (Perm.append_left mine (take_removed-ranges hs rest))
        (ranges-take_server h.identity.name m))

current_servings-ranges :
    (s : State) (m : Servings) → current_servings s ≡ some m → Perm (ranges m) (assigned_ranges s)
unfolding current_servings lookup
current_servings-ranges s m e =
    elim (Option-cases (lookup ℕ_discrete s.current_version s.range_assignments)) [
      | inl miss ↦ let same : m ≡ [] = ground arith in rw (same, miss) (Perm.refl [])
      | inr (as', hit) ↦
          let same : m ≡ group as' [] = group_of s m as' hit e in
          rw (same, hit) (rw (append-nil (map (λ a. a.range) as')) at (ranges-group as' []))
    ]
  where
    group_of :
        (s : State) (m : Servings) (as' : List RangeAssignment)
        → lookup ℕ_discrete s.current_version s.range_assignments ≡ some as'
        → current_servings s ≡ some m
        → m ≡ group as' []
    group_of s m as' hit e = ground arith

-- Whose ids are all in the list.
abbrev AllIn : List ℕ → List RangeInfo → Type 0
AllIn l [] = Unit {0}
AllIn l (r ∷ rs) = (contains ℕ_discrete r.id l ≡ true) × AllIn l rs

AllIn-cons : (k : ℕ) (l : List ℕ) (rs : List RangeInfo) → AllIn l rs → AllIn (k ∷ l) rs
unfolding contains
AllIn-cons k l [] h = tt
AllIn-cons k l (r ∷ rs) h = (ground arith, AllIn-cons k l rs h.1)

AllIn-append : (rs xs : List RangeInfo) → AllIn (ids (rs ++ xs)) rs
unfolding contains
AllIn-append [] xs = tt
AllIn-append (r ∷ rs) xs = (ground arith, AllIn-cons r.id (ids (rs ++ xs)) rs (AllIn-append rs xs))

retain-nil : (l : List ℕ) (rs : List RangeInfo) → AllIn l rs → retain_unassigned l rs ≡ []
unfolding retain_unassigned
retain-nil l [] h = refl
retain-nil l (r ∷ rs) h = ground (arith, retain-nil l rs h.1)

publish-inv :
    (s s' : State) (to_assign : List RangeInfo) (m : Servings)
    → publish s to_assign m ≡ assigned s'
    → (assigned_ranges s' ≡ ranges m)
      × (s'.unassigned_base_ranges ≡ retain_unassigned (ids to_assign) s.unassigned_base_ranges)
      × (s'.current_version ≡ s.current_version + 1)
      × (s'.ready_range_servers ≡ s.ready_range_servers)
unfolding publish
publish-inv s s' to_assign m e =
    let v = s.current_version + 1 in
    let now : s'.current_version ≡ v = ground arith in
    let stored : s'.range_assignments
        ≡ insert ℕ_discrete v (assignments m) (trim s.range_assignments) =
      ground arith in
    (
      rw (now, stored, lookup-insert ℕ_discrete v v (assignments m) (trim s.range_assignments))
          (rw (if_pos (ℕ_discrete v v) refl (some (assignments m)) _) (map-assignments m)),
      ground arith,
      now,
      ground arith,
    )

finish-inv :
    (persist : ℕ → List RangeAssignment → Bool) (s s' : State) (to_assign : List RangeInfo)
    (o : Option Assigned)
    → finish persist s to_assign o ≡ assigned s'
    → (out : Assigned) × (o ≡ some out) × (publish s to_assign out.servings ≡ assigned s')
unfolding finish
finish-inv persist s s' to_assign none e = cc
finish-inv persist s s' to_assign (some out) e = (out, refl, ground arith)

-- What a run starts from, if it assigns.
run-inv :
    (persist : ℕ → List RangeAssignment → Bool) (s s' : State) (prev : List HostInfo)
    → run_assignment_computation persist s prev ≡ assigned s'
    → (m : Servings) × (current_servings s ≡ some m)
      × (reassign persist s
            (difference s.ready_range_servers prev)
            (difference prev s.ready_range_servers)
            (some m)
          ≡ assigned s')
unfolding run_assignment_computation reassign
run-inv persist s s' prev e = elim (Option-cases (current_servings s)) [
  | inl miss ↦ absurd (
      ground (
        arith,
        reassign-none persist s (difference s.ready_range_servers prev)
            (difference prev s.ready_range_servers),
      ))
  | inr (m, hit) ↦ (m, hit, ground arith)
]
  where
    reassign-none :
        (persist : ℕ → List RangeAssignment → Bool) (s : State) (added removed : List HostInfo)
        → reassign persist s added removed none ≡ panics
    reassign-none persist s added removed = refl

-- A run that assigns makes the next version. All ranges that were assigned or waiting to be are
-- assigned in it, each as often as before, and none is left waiting.
pub run_assignment_computation-ranges :
    (persist : ℕ → List RangeAssignment → Bool) (s s' : State) (prev : List HostInfo)
    → run_assignment_computation persist s prev ≡ assigned s'
    → Perm (assigned_ranges s') (s.unassigned_base_ranges ++ assigned_ranges s)
      × (s'.unassigned_base_ranges ≡ [])
      × (s'.current_version ≡ s.current_version + 1)
unfolding reassign
run_assignment_computation-ranges persist s s' prev e =
    let (m, before, ran) = run-inv persist s s' prev e in
    let T = take_removed (difference prev s.ready_range_servers) m in
    let u = s.unassigned_base_ranges in
    let (out, runs, published) = finish-inv persist s s' (u ++ T.0) _ ran in
    let (now, left, version, ready) = publish-inv s s' (u ++ T.0) out.servings published in
    (
      rw now (
          Perm.trans (assign_ranges-ranges (u ++ T.0) _ T.1 [] {out = out} runs) (
            rw (append_assoc u T.0 (ranges T.1)) (
              Perm.append_left u (
                Perm.trans (take_removed-ranges (difference prev s.ready_range_servers) m)
                  (current_servings-ranges s m before))))),
      left ∙ retain-nil (ids (u ++ T.0)) u (AllIn-append u T.0),
      version,
    )
