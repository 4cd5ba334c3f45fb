-- ===== src/Warden/Examples.antt =====
-- The theorems about the warden at concrete servers and ranges.
use mathlib.Core.List.{Perm, Mem}
use atomix.Base.{
  ℕ, ◌+◌, ◌≡◌, ◌≢◌, ◌↔◌, refl, Bool, true, false, none, some, List, [], ◌∷◌, ◌++◌, arith, inr,
  lookup, bytes_lt,
}
use atomix.Common.KeyRange.{ProtoKeyRange, includes}
use atomix.Routing.{base_key_ranges, full_range_id_of_key}
use atomix.Warden.Servers
use atomix.Warden.Servers.{
  HostIdentity, HostInfo, identity_discrete, register_range_server, notify_range_server_unavailable,
}
use atomix.Warden.Servers.Epochs.{IsStale, register_range_server_lem}
use atomix.Warden.Loads.{
  RangeInfo, RangeAssignment, Load, load_lt, pop_from, pop, Servings, push_range, Assigned,
  assign_ranges,
}
use atomix.Warden.Loads.Balance.{Within, assign_ranges-Within}
use atomix.Warden.Loads.Shares.{Even, assign_ranges-Even}
use atomix.Warden.Assign
use atomix.Warden.Assign.{State, Outcome, waits, assigned, run_assignment_computation}
use atomix.Warden.Assign.Ranges.{assigned_ranges, run_assignment_computation-ranges}
use atomix.Warden.Assign.Versions.{IsVersioned, IsFine, run_assignment_computation-IsFine}
use atomix.Warden.Assign.Removed.{lost, serves, removed_server_chosen}
use atomix.Warden.Assign.Updates.{pair_of, Each, Sourced, get_assignment_update_lem}
use atomix.Warden.BaseRanges.{Warden, read_base_ranges, reported_ranges, range_info_of, round}
use atomix.Warden.BaseRanges.Rounds.{
  AllKnown, read_base_ranges_twice, failed_write_forgets, default_range_disagreement,
}

abbrev host : ℕ → ℕ → HostInfo
host n epoch = record {
  identity = record { name = n ∷ []; zone = 1 };
  address = 50055;
  warden_connection_epoch = epoch;
}

abbrev range : ℕ → RangeInfo
range n = record {
  keyspace_id = 1;
  id = n;
  key_range = record { lower_bound_inclusive = none; upper_bound_exclusive = none };
}

abbrev always : ℕ → List RangeAssignment → Bool
always _ _ = true

a-ne-b : (host b'a' 0).identity.name ≢ (host b'b' 0).identity.name
a-ne-b e = ground arith

register_range_server_lem_test :
    ((register_range_server (host b'a' 3 ∷ []) (host b'a' 3)).1 ≡ false
      ↔ IsStale (host b'a' 3 ∷ []) (host b'a' 3))
    × ((register_range_server (host b'a' 3 ∷ []) (host b'a' 3)).1 ≡ false
        → (register_range_server (host b'a' 3 ∷ []) (host b'a' 3)).0 ≡ host b'a' 3 ∷ [])
    × ((register_range_server (host b'a' 3 ∷ []) (host b'a' 3)).1 ≡ true
        → Servers.get
            (host b'a' 3).identity
            (register_range_server (host b'a' 3 ∷ []) (host b'a' 3)).0
          ≡ some (host b'a' 3))
    × ((i : HostIdentity)
        → i ≢ (host b'a' 3).identity
        → Servers.get i (register_range_server (host b'a' 3 ∷ []) (host b'a' 3)).0
          ≡ Servers.get i (host b'a' 3 ∷ []))
register_range_server_lem_test = register_range_server_lem (host b'a' 3 ∷ []) (host b'a' 3)

known_a : Servers.get (host b'a' 3).identity (host b'a' 3 ∷ []) ≡ some (host b'a' 3)
unfolding Servers.get
known_a = ground arith

abbrev even_heap : List Load
even_heap = record { count = 1; server = b'a' ∷ [] } ∷ record { count = 2; server = b'b' ∷ [] } ∷ []

abbrev after_one : Assigned
after_one = record {
  heap = record { count = 2; server = b'a' ∷ [] } ∷ record { count = 2; server = b'b' ∷ [] } ∷ [];
  servings = (b'a' ∷ [], range 7 ∷ []) ∷ [];
  updates = record { assignee = b'a' ∷ []; range = range 7 } ∷ [];
}

assign_one : assign_ranges (range 7 ∷ []) even_heap [] [] ≡ some after_one
unfolding assign_ranges pop pop_from load_lt push_range bytes_lt
assign_one = refl

assign_ranges-Within_test : (lo : ℕ) × Within lo after_one.heap
assign_ranges-Within_test =
    assign_ranges-Within (range 7 ∷ []) even_heap [] [] after_one (1, omega arith) assign_one

abbrev some_served : Servings
some_served = (b'a' ∷ [], range 4 ∷ []) ∷ (b'b' ∷ [], range 5 ∷ range 6 ∷ []) ∷ []

-- Of three new ranges, `a` gets two and `b` one.
assign_ranges-Even_example :
    (out : Assigned) × (assign_ranges (range 7 ∷ range 8 ∷ range 9 ∷ []) even_heap some_served []
      ≡ some out)
    × ((lo : ℕ) × Even lo out.servings even_heap)
assign_ranges-Even_example =
    assign_ranges-Even (range 7 ∷ range 8 ∷ range 9 ∷ []) even_heap some_served 1
      (λ e. ground arith) (((λ e. ground arith), tt), (tt, tt)) (ground arith, (ground arith, tt))
      (omega arith, (omega arith, tt))

abbrev start : State
start = lost 10 (host b'a' 0) (host b'b' 0) (range 7) (range 8) (range 9)

abbrev next_version : State
next_version = record start {
  range_assignments =
      (
        10,
        serves (host b'a' 0) (range 7)
            ∷ serves (host b'b' 0) (range 8)
            ∷ serves (host b'b' 0) (range 9)
            ∷ [],
      )
      ∷ (
        11,
        serves (host b'b' 0) (range 8)
            ∷ serves (host b'b' 0) (range 9)
            ∷ serves (host b'a' 0) (range 7)
            ∷ [],
      )
      ∷ [];
  current_version = 11;
}

abbrev start_assignments : List RangeAssignment
start_assignments =
    serves (host b'a' 0) (range 7)
    ∷ serves (host b'b' 0) (range 8)
    ∷ serves (host b'b' 0) (range 9)
    ∷ []

removed_server_chosen_example :
    run_assignment_computation always start (host b'a' 0 ∷ host b'b' 0 ∷ []) ≡ assigned next_version
removed_server_chosen_example =
    removed_server_chosen (host b'a' 0) (host b'b' 0) a-ne-b 10 (range 7) (range 8) (range 9)

run_assignment_computation-ranges_example :
    Perm (assigned_ranges next_version) (start.unassigned_base_ranges ++ assigned_ranges start)
    × (next_version.unassigned_base_ranges ≡ [])
    × (next_version.current_version ≡ start.current_version + 1)
run_assignment_computation-ranges_example =
    run_assignment_computation-ranges always start next_version (host b'a' 0 ∷ host b'b' 0 ∷ [])
      (removed_server_chosen (host b'a' 0) (host b'b' 0) a-ne-b 10 (range 7) (range 8) (range 9))

start-IsVersioned : IsVersioned start
unfolding lookup
start-IsVersioned = record {
  current = inr (ground arith);
  below = omega arith;
  bounded = omega arith;
}

run_assignment_computation-IsFine_example :
    IsFine (run_assignment_computation always start (host b'a' 0 ∷ host b'b' 0 ∷ []))
run_assignment_computation-IsFine_example =
    run_assignment_computation-IsFine always start (host b'a' 0 ∷ host b'b' 0 ∷ [])
      start-IsVersioned

abbrev warden : Warden
warden = record { base_ranges = range 7 ∷ range 8 ∷ range 9 ∷ []; state = start }

abbrev reports : List (ℕ × List ProtoKeyRange)
reports =
    (1, record { base_range_uuid = 5; lower_bound_inclusive = []; upper_bound_exclusive = [] } ∷ [])
    ∷ []

read_base_ranges_twice_test :
    ((read_base_ranges (record warden { base_ranges = [] }) (some reports) true).1 ≡ true
      → AllKnown
          (Assign.ids
            (read_base_ranges
              (record warden { base_ranges = [] })
              (some reports)
              true).0.base_ranges)
          (reported_ranges reports)
        × (read_base_ranges
              (read_base_ranges (record warden { base_ranges = [] }) (some reports) true).0
              (some reports)
              true
            ≡ (
              (read_base_ranges (record warden { base_ranges = [] }) (some reports) true).0,
              true,
            )))
    × ((read_base_ranges (record warden { base_ranges = [] }) (some reports) true).1 ≡ false
        → (read_base_ranges (record warden { base_ranges = [] }) (some reports) true).0
          ≡ record warden { base_ranges = [] })
read_base_ranges_twice_test =
    read_base_ranges_twice (record warden { base_ranges = [] }) reports true

no_report : (read_base_ranges warden none true).0 ≡ warden
unfolding read_base_ranges
no_report = refl

failed_write_forgets_test :
    (round (λ _ _. false) none true (warden, host b'a' 0 ∷ host b'b' 0 ∷ [])
      ≡ (warden, host b'b' 0 ∷ []))
    × (round always none true (warden, host b'b' 0 ∷ []) ≡ (warden, host b'b' 0 ∷ []))
failed_write_forgets_test =
    failed_write_forgets always none true warden (host b'a' 0 ∷ host b'b' 0 ∷ []) no_report refl

default_range_disagreement_example :
    ((r : ProtoKeyRange) × (base_key_ranges (λ i. i) [] ≡ r ∷ [])
      × (includes (range_info_of 7 r).key_range (12 ∷ []) ≡ true))
    × (full_range_id_of_key 7 (base_key_ranges (λ i. i) []) (12 ∷ []) ≡ none)
default_range_disagreement_example = default_range_disagreement (λ i. i) 7 (12 ∷ [])

get_assignment_update_lem_example :
    (u : Assign.FullAssignment) × (Assign.get_assignment_update next_version (host b'a' 0) 10
      ≡ some u)
    × (u.version ≡ 11)
    × Sourced (b'a' ∷ []) start_assignments u.range
    × Each (λ a. a.assignee ≡ b'a' ∷ [] → Mem (pair_of a) u.range) start_assignments
unfolding lookup
get_assignment_update_lem_example =
    get_assignment_update_lem next_version 10 start_assignments (host b'a' 0) (ground arith)
