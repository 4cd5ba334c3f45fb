-- ===== src/Routing/Search.antt =====
-- Which range a key is routed to.
use atomix.Base.{
  ℕ, ◌≡◌, refl, true, false, Option, none, some, List, [], ◌∷◌, Bytes, inl, inr, Bool-cases,
}
use atomix.Common.KeyRange.{ProtoKeyRange, from_proto, includes}
use atomix.Common.KeyRange.Split.{from_proto-empty}
use atomix.Routing.{FullRangeId, base_key_ranges, full_range_id_of_key}

-- No range of the list includes the key.
abbrev pub NoneIncludes : Bytes → List ProtoKeyRange → Type 0
NoneIncludes key [] = Unit {0}
NoneIncludes key (r ∷ rs) = (includes (from_proto r) key ≡ false) × NoneIncludes key rs

-- `r` is the first range of the list that includes the key.
pub data FirstIncludes (key : Bytes) (r : ProtoKeyRange) : List ProtoKeyRange → Type 0 where
  found :
      {rs : List ProtoKeyRange} → includes (from_proto r) key ≡ true → FirstIncludes key r (r ∷ rs)
  skip :
      {q : ProtoKeyRange} {rs : List ProtoKeyRange}
      → includes (from_proto q) key ≡ false
      → FirstIncludes key r rs
      → FirstIncludes key r (q ∷ rs)

-- The outcome of a search that is as it should be.
abbrev pub Routes : ℕ → List ProtoKeyRange → Bytes → Option FullRangeId → Type 0
Routes keyspace rs key none = NoneIncludes key rs
Routes keyspace rs key (some id) =
    (r : ProtoKeyRange) × FirstIncludes key r rs
    × (id ≡ record { keyspace_id = keyspace; range_id = r.base_range_uuid })

-- A search answers with the first range of the keyspace that includes the key, under the keyspace's
-- id, and with nothing only if no range includes it.
pub full_range_id_of_key-Routes :
    (keyspace : ℕ) (rs : List ProtoKeyRange) (key : Bytes)
    → Routes keyspace rs key (full_range_id_of_key keyspace rs key)
unfolding full_range_id_of_key
full_range_id_of_key-Routes keyspace [] key = tt
full_range_id_of_key-Routes keyspace (r ∷ rs) key =
    elim (Bool-cases (includes (from_proto r) key)) [
      | inl e ↦ rw e (r, found e, refl)
      | inr e ↦ rw e (
          step e (full_range_id_of_key keyspace rs key)
            (full_range_id_of_key-Routes keyspace rs key))
    ]
  where
    step :
        includes (from_proto r) key ≡ false
        → (o : Option FullRangeId) → Routes keyspace rs key o
        → Routes keyspace (r ∷ rs) key o
    step e none h = (e, h)
    step e (some id) (q, first, same) = (q, skip e first, same)

-- A keyspace that is created with no ranges gets one range, meant to cover all keys, and no key is
-- ever routed to it.
pub default_range_unroutable :
    (new_v4 : ℕ → ℕ) (keyspace : ℕ) (key : Bytes)
    → full_range_id_of_key keyspace (base_key_ranges new_v4 []) key ≡ none
unfolding full_range_id_of_key base_key_ranges
default_range_unroutable new_v4 keyspace key = rw (
    from_proto-empty
      (record {
        base_range_uuid = new_v4 0;
        lower_bound_inclusive = [];
        upper_bound_exclusive = [];
      })
      key refl)
