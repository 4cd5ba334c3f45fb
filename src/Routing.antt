-- ===== src/Routing.antt =====
-- How a key finds its range: the base ranges that universe/src/server.rs stores for a keyspace, and
-- the search of frontend/src/range_assignment_oracle.rs through them. The universe service answers
-- with the stored ranges.
pub mod Search
mod Examples
use atomix.Base.{ℕ, suc, Bytes, Option, none, some, List, [], ◌∷◌, if◌then◌else◌}
use atomix.Common.KeyRange.{ProtoKeyRange, from_proto, includes}

pub record KeyRangeRequest : Type 0 where
  pub lower_bound_inclusive : Bytes
  pub upper_bound_exclusive : Bytes

pub record FullRangeId : Type 0 where
  pub keyspace_id : ℕ
  pub range_id : ℕ

-- A new uuid for each requested range; `new_v4 i` is the `i`-th that the service draws.
pub name_ranges : (ℕ → ℕ) → ℕ → List KeyRangeRequest → List ProtoKeyRange
name_ranges new_v4 i [] = []
name_ranges new_v4 i (kr ∷ krs) =
    record {
      base_range_uuid = new_v4 i;
      lower_bound_inclusive = kr.lower_bound_inclusive;
      upper_bound_exclusive = kr.upper_bound_exclusive;
    }
    ∷ name_ranges new_v4 (suc i) krs

-- The ranges of `create_keyspace`: with none requested, one that is meant to cover all keys.
unfoldable pub base_key_ranges : (ℕ → ℕ) → List KeyRangeRequest → List ProtoKeyRange
base_key_ranges new_v4 [] =
    record { base_range_uuid = new_v4 0; lower_bound_inclusive = []; upper_bound_exclusive = [] }
    ∷ []
base_key_ranges new_v4 (kr ∷ krs) = name_ranges new_v4 0 (kr ∷ krs)

-- The first range that includes the key.
pub full_range_id_of_key : ℕ → List ProtoKeyRange → Bytes → Option FullRangeId
full_range_id_of_key keyspace_id [] key = none
full_range_id_of_key keyspace_id (range ∷ ranges) key =
    let rest = full_range_id_of_key keyspace_id ranges key in
    if includes (from_proto range) key
    then some (record { keyspace_id = keyspace_id; range_id = range.base_range_uuid })
    else rest
