-- ===== src/Warden/Assign.antt =====
-- `run_assignment_computation` and `get_assignment_update`. The ready servers are copied at the start,
-- so a run is one step of the state: the loop that calls it is the only other writer. A version is a
-- count of milliseconds and is not near the end of an i64. What the persistence layer answers to
-- the update is an argument.
pub mod Ranges
pub mod Versions
pub mod Removed
pub mod Idle
pub mod Updates
use atomix.Base.{
  ℕ, ◌+◌, Bool, true, false, not, ◌&&◌, Option, none, some, List, [], ◌∷◌, ◌++◌, map, Bytes, ltb,
  ◌==◌, if◌then◌else◌, ℕ_discrete, bytes_discrete, lookup, insert, remove, contains, min, ite,
}
use atomix.Warden.Servers.{HostInfo, HostIdentity}
use atomix.Warden.Servers
use atomix.Warden.Loads.{
  RangeInfo, RangeAssignment, Load, Servings, take_server, group, loads, assignments, Assigned,
  assign_ranges, length,
}

pub record State : Type 0 where
  pub range_assignments : List (ℕ × List RangeAssignment)
  pub current_version : ℕ
  pub ready_range_servers : List HostInfo
  pub unassigned_base_ranges : List RangeInfo

abbrev pub min_num_range_servers : ℕ
min_num_range_servers = 1

abbrev pub max_versions_to_keep : ℕ
max_versions_to_keep = 5

-- How a run ends. In each case it returns the ready servers that it copied.
pub data Outcome : Type 0 where
  waits write_failed panics : Outcome
  assigned : State → Outcome

-- The servers of the first list that the second does not have.
pub difference : List HostInfo → List HostInfo → List HostInfo
difference [] other = []
difference (h ∷ hs) other = elim (Servers.get h.identity other) [
  | none ↦ h ∷ difference hs other
  | some _ ↦ difference hs other
]

-- The map at the current version; `none` is the panic of its `unwrap`.
pub current_servings : State → Option Servings
current_servings s = elim s.range_assignments [
  | [] ↦ some []
  | _ ∷ _ ↦ elim (lookup ℕ_discrete s.current_version s.range_assignments) [
    | none ↦ none
    | some as' ↦ some (group as' [])
  ]
]

pub idle_loads : List HostInfo → List Load
idle_loads [] = []
idle_loads (h ∷ hs) = record { count = 0; server = h.identity.name } ∷ idle_loads hs

-- Every server with ranges, the added ones, or, if there are none of either, all that are ready.
pub server_heap : Servings → List HostInfo → List HostInfo → List Load
unfolding idle_loads
server_heap m added ready = elim (loads m ++ idle_loads added) [
  | [] ↦ idle_loads ready
  | l ∷ ls ↦ l ∷ ls
]

-- The ranges of the removed servers, and the map without them.
pub take_removed : List HostInfo → Servings → List RangeInfo × Servings
take_removed [] m = ([], m)
take_removed (h ∷ hs) m =
    let (ranges, rest) = take_server h.identity.name m in
    let (more, left) = take_removed hs rest in (ranges ++ more, left)

abbrev pub ids : List RangeInfo → List ℕ
ids = map λ r. r.id

-- `retain(|r| !assigned.contains(&r.id))`.
pub retain_unassigned : List ℕ → List RangeInfo → List RangeInfo
retain_unassigned assigned_ids [] = []
retain_unassigned assigned_ids (r ∷ rs) =
    let rest = retain_unassigned assigned_ids rs in
    if contains ℕ_discrete r.id assigned_ids then rest else r ∷ rest

pub oldest_version : ℕ → List (ℕ × List RangeAssignment) → ℕ
oldest_version v [] = v
oldest_version v ((w, _) ∷ m) = oldest_version (min v w) m

-- With more than the versions to keep, the oldest is dropped.
pub trim : List (ℕ × List RangeAssignment) → List (ℕ × List RangeAssignment)
unfolding oldest_version
trim [] = []
trim ((v, as') ∷ m) =
    if ltb max_versions_to_keep (length ((v, as') ∷ m))
    then remove ℕ_discrete (oldest_version v m) ((v, as') ∷ m)
    else (v, as') ∷ m

-- The end of a run whose update was written. It panics if the new version is there already.
pub publish : State → List RangeInfo → Servings → Outcome
publish s to_assign m =
    let version = s.current_version + 1 in
    let kept = trim s.range_assignments in
    elim (lookup ℕ_discrete version kept) [
      | some _ ↦ panics
      | none ↦ assigned (record s {
        range_assignments = insert ℕ_discrete version (assignments m) kept;
        current_version = version;
        unassigned_base_ranges = retain_unassigned (ids to_assign) s.unassigned_base_ranges;
      })
    ]

pub finish : (ℕ → List RangeAssignment → Bool) → State → List RangeInfo → Option Assigned → Outcome
finish persist s to_assign none = panics
finish persist s to_assign (some out) =
    if persist (s.current_version + 1) out.updates
    then publish s to_assign out.servings
    else write_failed

pub reassign :
    (ℕ → List RangeAssignment → Bool)
    → State
    → List HostInfo
    → List HostInfo
    → Option Servings
    → Outcome
reassign persist s added removed none = panics
reassign persist s added removed (some m) =
    let (taken, left) = take_removed removed m in
    let to_assign = s.unassigned_base_ranges ++ taken in
    finish persist s to_assign
      (assign_ranges to_assign (server_heap m added s.ready_range_servers) left [])

abbrev pub is_empty {ℓ} : {A : Type ℓ} → List A → Bool
is_empty [] = true
is_empty (x ∷ xs) = false

pub run_assignment_computation : (ℕ → List RangeAssignment → Bool) → State → List HostInfo → Outcome
run_assignment_computation persist s prev_ready_servers =
    let ready = s.ready_range_servers in
    let added = difference ready prev_ready_servers in
    let removed = difference prev_ready_servers ready in
    if ltb (length ready) min_num_range_servers
    then waits
    else if is_empty added && (is_empty removed && is_empty s.unassigned_base_ranges)
    then waits
    else reassign persist s added removed (current_servings s)

pub record FullAssignment : Type 0 where
  pub version : ℕ
  pub range : List (ℕ × ℕ)

-- The keyspace and range ids of a server's ranges.
pub ranges_of_server : Bytes → List RangeAssignment → List (ℕ × ℕ)
ranges_of_server server [] = []
ranges_of_server server (a ∷ as') =
    ite (bytes_discrete a.assignee server)
      ((a.range.keyspace_id, a.range.id) ∷ ranges_of_server server as')
      (ranges_of_server server as')

pub get_assignment_update : State → HostInfo → ℕ → Option FullAssignment
get_assignment_update s host_info version = elim (lookup ℕ_discrete version s.range_assignments) [
  | none ↦ none
  | some as' ↦
      some (record {
        version = s.current_version;
        range = ranges_of_server host_info.identity.name as';
      })
]
