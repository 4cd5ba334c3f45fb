-- ===== src/Routing/Examples.antt =====
-- The theorems about routing at a concrete keyspace.
use atomix.Base.{◌≡◌, refl, none, some, [], ◌∷◌, bytes_lt}
use atomix.Common.KeyRange.{ProtoKeyRange, from_proto, includes}
use atomix.Routing.{FullRangeId, full_range_id_of_key, base_key_ranges}
use atomix.Routing.Search.{Routes, full_range_id_of_key-Routes, default_range_unroutable}

abbrev low : ProtoKeyRange
low = record {
  base_range_uuid = 31;
  lower_bound_inclusive = 0 ∷ [];
  upper_bound_exclusive = 10 ∷ [];
}

abbrev high : ProtoKeyRange
high = record {
  base_range_uuid = 32;
  lower_bound_inclusive = 10 ∷ [];
  upper_bound_exclusive = 99 ∷ [];
}

abbrev answer : FullRangeId
answer = record { keyspace_id = 7; range_id = 32 }

search_high : full_range_id_of_key 7 (low ∷ high ∷ []) (12 ∷ 3 ∷ []) ≡ some answer
unfolding full_range_id_of_key includes from_proto bytes_lt
search_high = refl

full_range_id_of_key-Routes_test :
    Routes 7
      (low ∷ high ∷ [])
      (12 ∷ 3 ∷ [])
      (full_range_id_of_key 7 (low ∷ high ∷ []) (12 ∷ 3 ∷ []))
full_range_id_of_key-Routes_test = full_range_id_of_key-Routes 7 (low ∷ high ∷ []) (12 ∷ 3 ∷ [])

default_range_unroutable_example :
    full_range_id_of_key 7 (base_key_ranges (λ i. i) []) (12 ∷ []) ≡ none
default_range_unroutable_example = default_range_unroutable (λ i. i) 7 (12 ∷ [])
