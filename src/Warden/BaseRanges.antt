-- ===== src/Warden/BaseRanges.antt =====
-- `read_base_ranges` and `assignment_computation_loop`: new base ranges of the universe service, and a
-- round of the loop. What the service reports and whether the persistence layer stores the new
-- ranges are arguments; a failed call or an id that does not parse is `none`.
pub mod Rounds
use atomix.Base.{
  ℕ, Bool, true, false, Option, none, some, List, [], ◌∷◌, ◌++◌, map, Bytes, ℕ_discrete, contains,
  if◌then◌else◌,
}
use atomix.Common.KeyRange.{KeyRange, ProtoKeyRange}
use atomix.Warden.Servers.{HostInfo}
use atomix.Warden.Loads.{RangeInfo, RangeAssignment}
use atomix.Warden.Assign.{
  State, Outcome, waits, write_failed, panics, assigned, ids, run_assignment_computation,
}

abbrev pub bound_of : Bytes → Option Bytes
bound_of [] = none
bound_of (b ∷ bs) = some (b ∷ bs)

-- An empty bound of the protocol is no bound.
pub range_info_of : ℕ → ProtoKeyRange → RangeInfo
range_info_of keyspace_id range = record {
  keyspace_id = keyspace_id;
  id = range.base_range_uuid;
  key_range = record {
    lower_bound_inclusive = bound_of range.lower_bound_inclusive;
    upper_bound_exclusive = bound_of range.upper_bound_exclusive;
  };
}

-- The reported base ranges, keyspace by keyspace.
pub reported_ranges : List (ℕ × List ProtoKeyRange) → List RangeInfo
reported_ranges [] = []
reported_ranges ((keyspace_id, rs) ∷ ks) = map (range_info_of keyspace_id) rs ++ reported_ranges ks

pub record Warden : Type 0 where
  pub base_ranges : List RangeInfo
  pub state : State

-- The ranges whose ids are not in the list.
pub not_among : List ℕ → List RangeInfo → List RangeInfo
not_among known [] = []
not_among known (r ∷ rs) =
    let rest = not_among known rs in if contains ℕ_discrete r.id known then rest else r ∷ rest

abbrev pub is_nil {ℓ} : {A : Type ℓ} → List A → Bool
is_nil [] = true
is_nil (x ∷ xs) = false

-- The new ranges go to the base ranges and to those that wait to be assigned.
pub extend : Warden → List RangeInfo → Warden
extend w new_base_ranges = record {
  base_ranges = w.base_ranges ++ new_base_ranges;
  state = record (w.state) {
    unassigned_base_ranges = w.state.unassigned_base_ranges ++ new_base_ranges;
  };
}

-- `false` for an error: the service failed, a known range is not reported any more, or the new ranges
-- could not be stored.
unfoldable pub read_base_ranges :
    Warden → Option (List (ℕ × List ProtoKeyRange)) → (stored : Bool) → Warden × Bool
read_base_ranges w none stored = (w, false)
read_base_ranges w (some keyspaces) stored =
    let base_ranges = reported_ranges keyspaces in
    if is_nil (not_among (ids base_ranges) w.base_ranges)
    then if stored then (extend w (not_among (ids w.base_ranges) base_ranges), true) else (w, false)
    else (w, false)

abbrev pub after : State → Outcome → State
after s (assigned s') = s'
after s _ = s

-- One round of `assignment_computation_loop`: the next state, and the servers to compare with in the
-- next round. An error of `read_base_ranges` is only logged.
pub round :
    (persist : ℕ → List RangeAssignment → Bool)
    → Option (List (ℕ × List ProtoKeyRange))
    → (stored : Bool) → Warden × List HostInfo
    → Warden × List HostInfo
round persist reported stored (w, ready_servers) =
    let w' = (read_base_ranges w reported stored).0 in
    (
      record w' {
        state = after w'.state (run_assignment_computation persist w'.state ready_servers);
      },
      w'.state.ready_range_servers,
    )
