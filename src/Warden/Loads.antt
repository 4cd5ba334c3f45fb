-- ===== src/Warden/Loads.antt =====
-- The heap and the map of `run_assignment_computation`. The heap is `BinaryHeap<Reverse<(usize,
-- String)>>` of the standard library: a list from which `pop` takes the least pair. The map from
-- servers to their ranges is an association list with one entry for each server; the order of its
-- entries stands for the order in which the HashMap is walked.
pub mod Contents
pub mod Balance
pub mod Shares
use atomix.Base.{
  ℕ, suc, ◌+◌, Bool, true, false, Option, none, some, List, [], ◌∷◌, ◌++◌, Bytes, ltb, bytes_lt,
  bytes_discrete, if◌then◌else◌, ite,
}
use atomix.Common.KeyRange.{KeyRange}

pub record RangeInfo : Type 0 where
  pub keyspace_id : ℕ
  pub id : ℕ
  pub key_range : KeyRange

pub record RangeAssignment : Type 0 where
  pub assignee : Bytes
  pub range : RangeInfo

-- A server's name behind the number of its ranges, in the order of tuples.
pub record Load : Type 0 where
  pub count : ℕ
  pub server : Bytes

unfoldable pub load_lt : Load → Load → Bool
load_lt a b =
    if ltb a.count b.count
    then true
    else if ltb b.count a.count
    then false
    else bytes_lt a.server b.server

-- The least of `a` and the list, and the others.
unfoldable pub pop_from : Load → List Load → Load × List Load
pop_from a [] = (a, [])
pop_from a (b ∷ bs) =
    let (least, rest) = pop_from b bs in if load_lt least a then (least, a ∷ rest) else (a, b ∷ bs)

unfoldable pub pop : List Load → Option (Load × List Load)
pop [] = none
pop (a ∷ bs) = some (pop_from a bs)

abbrev pub Servings : Type 0
Servings = List (Bytes × List RangeInfo)

-- `entry(server).or_insert_with(Vec::new).push(range)`.
unfoldable pub push_range : Bytes → RangeInfo → Servings → Servings
push_range server range [] = (server, range ∷ []) ∷ []
push_range server range ((s, rs) ∷ m) =
    ite (bytes_discrete server s) ((s, rs ++ range ∷ []) ∷ m) ((s, rs) ∷ push_range server range m)

-- `remove(server)`: the server's ranges, none if it has no entry, and the other entries.
unfoldable pub take_server : Bytes → Servings → List RangeInfo × Servings
take_server server [] = ([], [])
take_server server ((s, rs) ∷ m) =
    let (ranges, rest) = take_server server m in
    ite (bytes_discrete server s) (rs, m) (ranges, (s, rs) ∷ rest)

unfoldable pub group : List RangeAssignment → Servings → Servings
group [] m = m
group (a ∷ as') m = group as' (push_range a.assignee a.range m)

abbrev pub length {ℓ} : {A : Type ℓ} → List A → ℕ
length [] = 0
length (x ∷ xs) = suc (length xs)

unfoldable pub loads : Servings → List Load
loads [] = []
loads ((s, rs) ∷ m) = record { count = length rs; server = s } ∷ loads m

unfoldable pub assign_to : Bytes → List RangeInfo → List RangeAssignment
assign_to s [] = []
assign_to s (r ∷ rs) = record { assignee = s; range = r } ∷ assign_to s rs

-- The assignments of a map, server by server.
unfoldable pub assignments : Servings → List RangeAssignment
assignments [] = []
assignments ((s, rs) ∷ m) = assign_to s rs ++ assignments m

-- What the loop over the ranges to assign leaves, and the assignments that it made.
pub record Assigned : Type 0 where
  pub heap : List Load
  pub servings : Servings
  pub updates : List RangeAssignment

-- Each range goes to the server with the least load. `none` is the panic of `pop().unwrap()`.
unfoldable pub assign_ranges :
    List RangeInfo → List Load → Servings → List RangeAssignment → Option Assigned
assign_ranges [] heap m done = some (record { heap = heap; servings = m; updates = done })
assign_ranges (r ∷ rs) heap m done = elim (pop heap) [
  | none ↦ none
  | some (next, rest) ↦
      assign_ranges rs (record { count = next.count + 1; server = next.server } ∷ rest)
        (push_range next.server r m) (done ++ record { assignee = next.server; range = r } ∷ [])
]
