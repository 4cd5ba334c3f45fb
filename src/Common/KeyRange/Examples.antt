-- ===== src/Common/KeyRange/Examples.antt =====
-- The test of common/src/key_range.rs, and the theorems about ranges at a concrete range.
use atomix.Base.{ℕ, ◌≡◌, refl, true, false, some, [], ◌∷◌, Bytes, bytes_lt}
use atomix.Common.KeyRange.{KeyRange, includes, all, empty}
use atomix.Common.KeyRange.Split.{includes_convex}

abbrev letter : ℕ → Bytes
letter c = c ∷ []

abbrev real_range : KeyRange
real_range = record {
  lower_bound_inclusive = some (letter b'C');
  upper_bound_exclusive = some (letter b'G');
}

basic_test :
    (includes empty (letter b'A') ≡ false)
    × (includes all (letter b'A') ≡ true)
    × (includes real_range (letter b'C') ≡ true)
    × (includes real_range (b'D' ∷ b'D' ∷ []) ≡ true)
    × (includes real_range (letter b'G') ≡ false)
    × (includes real_range (letter b'Z') ≡ false)
unfolding includes bytes_lt
basic_test = (refl, refl, refl, refl, refl, refl)

includes_convex_example : includes real_range (b'D' ∷ b'D' ∷ []) ≡ true
unfolding includes bytes_lt
includes_convex_example =
    includes_convex real_range (letter b'C') (letter b'F') (b'D' ∷ b'D' ∷ []) refl refl refl refl
