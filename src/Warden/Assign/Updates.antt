-- ===== src/Warden/Assign/Updates.antt =====
-- What `get_assignment_update` tells a range server.
use mathlib.Core.Path.{subst}
use mathlib.Core.List.{Mem, mem-cons_self, mem-cons_of_mem}
use atomix.Base.{
  ℕ, ◌≡◌, refl, some, List, [], ◌∷◌, Bytes, arith, ℕ_discrete, bytes_discrete, lookup, if_pos,
  if_neg,
}
use atomix.Warden.Servers.{HostInfo}
use atomix.Warden.Loads.{RangeAssignment}
use atomix.Warden.Assign.{State, FullAssignment, ranges_of_server, get_assignment_update}

-- The assignment's range is listed for its assignee, if the keyspace and the id are a `pair`.
abbrev pub pair_of : RangeAssignment → ℕ × ℕ
pair_of a = (a.range.keyspace_id, a.range.id)

-- What is true of each member of a list.
abbrev pub Each : (RangeAssignment → Type 0) → List RangeAssignment → Type 0
Each P [] = Unit {0}
Each P (a ∷ as') = P a × Each P as'

Listed-cons :
    (a b : RangeAssignment) (as' : List RangeAssignment)
    → Mem (pair_of b) (ranges_of_server b.assignee as')
    → Mem (pair_of b) (ranges_of_server b.assignee (a ∷ as'))
unfolding ranges_of_server
Listed-cons a b as' m = elim (bytes_discrete a.assignee b.assignee) [
  | yes p ↦ rw (if_pos _ p) (mem-cons_of_mem (pair_of a) m)
  | no p ↦ rw (if_neg _ p) m
]

Each-cons :
    (a : RangeAssignment) (all rest : List RangeAssignment)
    → Each (λ b. Mem (pair_of b) (ranges_of_server b.assignee all)) rest
    → Each (λ b. Mem (pair_of b) (ranges_of_server b.assignee (a ∷ all))) rest
Each-cons a all [] h = tt
Each-cons a all (b ∷ rest) h = (Listed-cons a b all h.0, Each-cons a all rest h.1)

Listed_self :
    (as' : List RangeAssignment) → Each (λ b. Mem (pair_of b) (ranges_of_server b.assignee as')) as'
unfolding ranges_of_server
Listed_self [] = tt
Listed_self (a ∷ as') = (
  rw (if_pos (bytes_discrete a.assignee a.assignee) refl) mem-cons_self,
  Each-cons a as' as' (Listed_self as'),
)

-- The pairs of a server's update, each with the assignment that it comes from.
abbrev pub Sourced : Bytes → List RangeAssignment → List (ℕ × ℕ) → Type 0
Sourced server as' [] = Unit {0}
Sourced server as' (p ∷ ps) =
    ((a : RangeAssignment) × Mem a as' × (a.assignee ≡ server) × (pair_of a ≡ p))
    × Sourced server as' ps

Sourced-cons :
    (server : Bytes) (b : RangeAssignment) (as' : List RangeAssignment) (ps : List (ℕ × ℕ))
    → Sourced server as' ps
    → Sourced server (b ∷ as') ps
Sourced-cons server b as' [] h = tt
Sourced-cons server b as' (p ∷ ps) h =
    let (a, m, same, pair) = h.0 in
    ((a, mem-cons_of_mem b m, same, pair), Sourced-cons server b as' ps h.1)

Sourced-self :
    (server : Bytes) (as' : List RangeAssignment) → Sourced server as' (ranges_of_server server as')
unfolding ranges_of_server
Sourced-self server [] = tt
Sourced-self server (a ∷ as') =
    let rest = Sourced-cons server a as' (ranges_of_server server as') (Sourced-self server as') in
    elim (bytes_discrete a.assignee server) [
      | yes p ↦ rw (if_pos _ p) ((a, mem-cons_self, p, refl), rest)
      | no p ↦ rw (if_neg _ p) rest
    ]

-- The ranges of a server's assignments are in its part of the list.
self_of_list :
    (server : Bytes) (all rest : List RangeAssignment)
    → Each (λ a. Mem (pair_of a) (ranges_of_server a.assignee all)) rest
    → Each (λ a. a.assignee ≡ server → Mem (pair_of a) (ranges_of_server server all)) rest
self_of_list server all [] h = tt
self_of_list server all (a ∷ rest) h = (
  λ same. subst (λ s. Mem (pair_of a) (ranges_of_server s all)) same h.0,
  self_of_list server all rest h.1,
)

-- For a cached version there is an update for every server: it lists the range of each assignment of
-- that version to the server, and nothing else. The version number that it carries is the current
-- one, also where the ranges are those of an older version.
pub get_assignment_update_lem :
    (s : State) (version : ℕ) (as' : List RangeAssignment) (h : HostInfo)
    → lookup ℕ_discrete version s.range_assignments ≡ some as'
    → (u : FullAssignment) × (get_assignment_update s h version ≡ some u)
      × (u.version ≡ s.current_version)
      × Sourced h.identity.name as' u.range
      × Each (λ a. a.assignee ≡ h.identity.name → Mem (pair_of a) u.range) as'
unfolding get_assignment_update
get_assignment_update_lem s version as' h e = (
  record { version = s.current_version; range = ranges_of_server h.identity.name as' },
  ground arith,
  refl,
  Sourced-self h.identity.name as',
  self_of_list h.identity.name as' as' (Listed_self as'),
)
