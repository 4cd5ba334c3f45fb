-- ===== src/RangeServer/WardenHandler.antt =====
-- rangeserver/src/warden_handler.rs: the set of ranges that the warden assigns to the server, and the
-- messages that tell the server to load and unload them. The id of a range is an element of any type
-- with decidable equality, taken as parsed. The receiver of the messages exists, since `send` panics
-- without it. The connection to the warden is not modelled.
pub mod Updates
mod Examples
use atomix.Base.{
  ℕ, Bool, true, false, not, ◌&&◌, List, [], ◌∷◌, ◌++◌, if◌then◌else◌, contains, add, discard,
}

pub data Message (K : Type 0) : Type 0 where
  load_range unload_range : K → Message K

pub data Update (K : Type 0) : Type 0 where
  full_assignment : List K → Update K
  incremental_assignment : (load unload : List K) → Update K

pub data State (K : Type 0) : Type 0 where
  not_started stopped : State K
  started : (assigned_ranges : List K) → State K

module _ {K : Type 0} (dec : Discrete K) where
  -- `collect` into a set.
  unfoldable pub collect : List K → List K
  collect [] = []
  collect (r ∷ rs) = add dec r (collect rs)

  -- The loop over the current ranges.
  unfoldable pub unload_missing : (current new_assignment : List K) → List (Message K)
  unload_missing [] new_assignment = []
  unload_missing (r ∷ rs) new_assignment =
      let rest = unload_missing rs new_assignment in
      if contains dec r new_assignment then rest else unload_range r ∷ rest

  -- The loop over the new ranges.
  unfoldable pub load_new : (new_assignment current : List K) → List (Message K)
  load_new [] current = []
  load_new (r ∷ rs) current =
      let rest = load_new rs current in if contains dec r current then rest else load_range r ∷ rest

  -- The loop over `incremental.load`.
  unfoldable pub load_each : List K → List K → List K × List (Message K)
  load_each [] assigned = (assigned, [])
  load_each (r ∷ rs) assigned =
      let (after, sent) = load_each rs (add dec r assigned) in
      (after, if contains dec r assigned then sent else load_range r ∷ sent)

  -- The loop over `incremental.unload`.
  unfoldable pub unload_each : List K → List K → List K × List (Message K)
  unload_each [] assigned = (assigned, [])
  unload_each (r ∷ rs) assigned =
      let (after, sent) = unload_each rs (discard dec r assigned) in
      (after, if contains dec r assigned then unload_range r ∷ sent else sent)

  unfoldable pub process_warden_update : Update K → List K → List K × List (Message K)
  process_warden_update (full_assignment range) assigned_ranges =
      let new_assignment = collect range in
      (
        new_assignment,
        unload_missing assigned_ranges new_assignment ++ load_new new_assignment assigned_ranges,
      )
  process_warden_update (incremental_assignment load unload) assigned_ranges =
      let (loaded, loads) = load_each load assigned_ranges in
      let (after, unloads) = unload_each unload loaded in (after, loads ++ unloads)

  -- `false` for an error. The region of the host may be unknown.
  unfoldable pub start : State K → (known_region : Bool) → State K × Bool
  start not_started true = (started [], true)
  start not_started false = (not_started, false)
  start s known_region = (s, false)

  unfoldable pub stop : State K → State K
  stop s = stopped

  unfoldable pub is_assigned : State K → K → Bool
  is_assigned (started assigned_ranges) r = contains dec r assigned_ranges
  is_assigned s r = false
