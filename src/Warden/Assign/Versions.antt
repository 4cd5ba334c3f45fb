-- ===== src/Warden/Assign/Versions.antt =====
-- The cached versions: their bound, and that no run of the computation panics.
use atomix.Base.{
  ℕ, ◌+◌, ◌≡◌, ◌≢◌, ◌≤◌, ◌<◌, refl, Bool, true, false, Option, none, some, List, [], ◌∷◌, ◌++◌,
  arith, min, ℕ_discrete, lookup, insert, remove, lookup-insert, Option-cases, inl, inr, ◌⊎◌, ltb,
  Bool-cases,
}
use atomix.Warden.Servers.{HostInfo}
use atomix.Warden.Loads.{
  RangeInfo, RangeAssignment, Load, Servings, group, assignments, Assigned, length,
}
use atomix.Warden.Loads.Balance.{All, assign_ranges_total}
use atomix.Warden.Assign.{
  State, Outcome, panics, assigned, current_servings, idle_loads, server_heap, take_removed,
  oldest_version, trim, publish, finish, reassign, difference, run_assignment_computation,
}

abbrev Versions : Type 0
Versions = List (ℕ × List RangeAssignment)

abbrev pub is_some {ℓ} : {A : Type ℓ} → Option A → Bool
is_some none = false
is_some (some x) = true

abbrev pub UpTo : ℕ → Versions → Type 0
UpTo n [] = Unit {0}
UpTo n ((v, _) ∷ m) = (v ≤ n) × UpTo n m

-- The versions are none above the current one, which is there unless there are none, and six at most.
pub record IsVersioned (s : State) : Type 0 where
  pub current :
      (s.range_assignments ≡ [])
      ⊎ (is_some (lookup ℕ_discrete s.current_version s.range_assignments) ≡ true)
  pub below : UpTo s.current_version s.range_assignments
  pub bounded : length s.range_assignments ≤ 6

lookup-above : (n v : ℕ) (m : Versions) → UpTo n m → n < v → lookup ℕ_discrete v m ≡ none
unfolding lookup
lookup-above n v [] h lt = refl
lookup-above n v ((w, as') ∷ m) h lt = ground (arith, lookup-above n v m h.1 lt)

UpTo-remove : (n k : ℕ) (m : Versions) → UpTo n m → UpTo n (remove ℕ_discrete k m)
unfolding remove
UpTo-remove n k [] h = tt
UpTo-remove n k ((w, as') ∷ m) h = ground (arith, UpTo-remove n k m h.1)

UpTo-insert :
    (n : ℕ) (as' : List RangeAssignment) (m : Versions)
    → UpTo n m
    → UpTo (n + 1) (insert ℕ_discrete (n + 1) as' m)
unfolding insert
UpTo-insert n as' [] h = (omega arith, tt)
UpTo-insert n as' ((w, bs) ∷ m) h = ground (arith, UpTo-insert n as' m h.1, UpTo-mono n m h.1)
  where
    UpTo-mono : (n : ℕ) (m : Versions) → UpTo n m → UpTo (n + 1) m
    UpTo-mono n [] h = tt
    UpTo-mono n ((w, cs) ∷ m) h = (omega arith, UpTo-mono n m h.1)

length-insert-le :
    (k : ℕ) (as' : List RangeAssignment) (m : Versions)
    → length (insert ℕ_discrete k as' m) ≤ length m + 1
unfolding insert
length-insert-le k as' [] = omega arith
length-insert-le k as' ((w, bs) ∷ m) = ground (arith, length-insert-le k as' m)

length-remove-le : (k : ℕ) (m : Versions) → length (remove ℕ_discrete k m) ≤ length m
unfolding remove
length-remove-le k [] = omega arith
length-remove-le k ((w, bs) ∷ m) = ground (arith, length-remove-le k m)

-- The oldest version is the given one or is in the list.
length-remove-oldest :
    (v : ℕ) (m : Versions)
    → (oldest_version v m ≡ v) ⊎ (length (remove ℕ_discrete (oldest_version v m) m) < length m)
unfolding oldest_version remove
length-remove-oldest v [] = inl refl
length-remove-oldest v ((w, as') ∷ m) =
    ground
      (arith, length-remove-oldest (min v w) m, length-remove-le (oldest_version (min v w) m) m)

length-trim : (m : Versions) → length m ≤ 6 → length (trim m) ≤ 5
unfolding trim remove
length-trim [] h = omega arith
length-trim ((v, as') ∷ m) h =
    ground (arith, length-remove-oldest v m, length-remove-le (oldest_version v m) m)

UpTo-trim : (n : ℕ) (m : Versions) → UpTo n m → UpTo n (trim m)
unfolding trim
UpTo-trim n [] h = tt
UpTo-trim n ((v, as') ∷ m) h = ground (arith, UpTo-remove n (oldest_version v m) ((v, as') ∷ m) h)

-- Whether an outcome is one that leaves the versions well formed, and is no panic.
abbrev pub IsFine : Outcome → Type 0
IsFine (assigned s) = IsVersioned s
IsFine panics = ⊥
IsFine _ = Unit {0}

publish-IsFine :
    (s : State) (to_assign : List RangeInfo) (m : Servings)
    → IsVersioned s
    → IsFine (publish s to_assign m)
unfolding publish
publish-IsFine s to_assign m v =
    let n = s.current_version in
    let kept = trim s.range_assignments in
    let fresh =
      lookup-above n (n + 1) kept (UpTo-trim n s.range_assignments v.below) (omega arith) in
    rw (fresh, publish)
      (record {
        current =
            inr (ground (arith, lookup-insert ℕ_discrete (n + 1) (n + 1) (assignments m) kept));
        below = UpTo-insert n (assignments m) kept (UpTo-trim n s.range_assignments v.below);
        bounded = omega (
          arith,
          length-insert-le (n + 1) (assignments m) kept,
          length-trim s.range_assignments v.bounded,
        );
      })

server_heap-ne-nil :
    (m : Servings) (added ready : List HostInfo) → ready ≢ [] → server_heap m added ready ≢ []
unfolding server_heap idle_loads
server_heap-ne-nil m added [] h e = h refl
server_heap-ne-nil m added (r ∷ ready) h e = ground arith

All-trivial : (ls : List Load) → All (λ l. Unit {0}) ls
All-trivial [] = tt
All-trivial (l ∷ ls) = (tt, All-trivial ls)

current_servings-some : (s : State) → IsVersioned s → (m : Servings) × (current_servings s ≡ some m)
unfolding current_servings lookup
current_servings-some s v = elim v.current [
  | inl e ↦ ([], ground arith)
  | inr e ↦ elim (Option-cases (lookup ℕ_discrete s.current_version s.range_assignments)) [
    | inl miss ↦ absurd (ground arith)
    | inr (as', hit) ↦ (group as' [], ground arith)
  ]
]

finish-IsFine :
    (persist : ℕ → List RangeAssignment → Bool) (s : State) (to_assign : List RangeInfo)
    (out : Assigned)
    → IsVersioned s
    → IsFine (finish persist s to_assign (some out))
unfolding finish
finish-IsFine persist s to_assign out v = ground (arith, publish-IsFine s to_assign out.servings v)

reassign-IsFine :
    (persist : ℕ → List RangeAssignment → Bool) (s : State) (added removed : List HostInfo)
    → s.ready_range_servers ≢ []
    → IsVersioned s
    → IsFine (reassign persist s added removed (current_servings s))
unfolding reassign
reassign-IsFine persist s added removed ready v =
    let (m, found) = current_servings-some s v in
    let T = take_removed removed m in
    let heap = server_heap m added s.ready_range_servers in
    let to_assign = s.unassigned_base_ranges ++ T.0 in
    let (out, runs, chosen) =
      assign_ranges_total (λ b. Unit {0}) to_assign heap T.1 []
        (server_heap-ne-nil m added s.ready_range_servers ready) (All-trivial heap) tt in
    rw (found, reassign) (rw runs (finish-IsFine persist s to_assign out v))

ready-ne-nil : (ready : List HostInfo) → ltb (length ready) 1 ≡ false → ready ≢ []
ready-ne-nil [] h e = cc
ready-ne-nil (r ∷ ready) h e = cc

-- However the write to the persistence layer ends, a run on well-formed versions does not panic, and
-- it leaves the versions well formed: none above the current one, which is there, and six at most.
pub run_assignment_computation-IsFine :
    (persist : ℕ → List RangeAssignment → Bool) (s : State) (prev : List HostInfo)
    → IsVersioned s
    → IsFine (run_assignment_computation persist s prev)
unfolding run_assignment_computation
run_assignment_computation-IsFine persist s prev v =
    let ready = s.ready_range_servers in
    elim (Bool-cases (ltb (length ready) 1)) [
      | inl few ↦ rw (few, run_assignment_computation) tt
      | inr enough ↦ ground (
        arith,
        reassign-IsFine persist s (difference ready prev) (difference prev ready)
            (ready-ne-nil ready enough) v,
      )
    ]
