-- ===== src/Common/KeyRange/Split.antt =====
-- What a range of keys includes, against the order of the keys.
use atomix.Base.{
  ◌≡◌, refl, Bytes, true, false, ◌&&◌, ◌||◌, Option, none, some, [], ◌∷◌, bytes_lt, bytes_lt_irrefl,
  bytes_lt_trans, bytes_lt_total, arith,
}
use atomix.Common.KeyRange.{
  KeyRange, ProtoKeyRange, includes, from_proto, within_lower, within_upper,
}

-- No key is below the empty key.
pub bytes_lt-nil : (k : Bytes) → bytes_lt k [] ≡ false
unfolding bytes_lt
bytes_lt-nil [] = refl
bytes_lt-nil (x ∷ xs) = refl

bytes_lt_asymm : (a b : Bytes) → bytes_lt a b ≡ true → bytes_lt b a ≡ false
bytes_lt_asymm a b h = ground (arith, bytes_lt_trans a b a, bytes_lt_irrefl a)

-- `b ≤ a` and `a < c` give `b < c`, and its mirror image.
bytes_lt_of_le_lt :
    (b a c : Bytes) → bytes_lt a b ≡ false → bytes_lt a c ≡ true → bytes_lt b c ≡ true
bytes_lt_of_le_lt b a c h k = ground (arith, bytes_lt_total a b, bytes_lt_trans b a c)

bytes_lt_of_lt_le :
    (b a c : Bytes) → bytes_lt b a ≡ true → bytes_lt c a ≡ false → bytes_lt b c ≡ true
bytes_lt_of_lt_le b a c h k = ground (arith, bytes_lt_total a c, bytes_lt_trans b a c)

lower_mono :
    (lo : Option Bytes) (a k : Bytes)
    → within_lower lo a ≡ true
    → bytes_lt k a ≡ false
    → within_lower lo k ≡ true
unfolding within_lower
lower_mono none a k h e = refl
lower_mono (some b) a k h e = ground (arith, bytes_lt_of_lt_le k b a, bytes_lt_of_le_lt a k b)

upper_mono :
    (hi : Option Bytes) (b k : Bytes)
    → within_upper hi b ≡ true
    → bytes_lt b k ≡ false
    → within_upper hi k ≡ true
unfolding within_upper
upper_mono none b k h e = refl
upper_mono (some c) b k h e = bytes_lt_of_le_lt k b c e h

-- A range between two included keys is included.
pub includes_convex :
    (r : KeyRange) (a b k : Bytes)
    → includes r a ≡ true
    → includes r b ≡ true
    → bytes_lt k a ≡ false
    → bytes_lt b k ≡ false
    → includes r k ≡ true
unfolding includes
includes_convex r a b k ha hb hak hkb =
    ground (arith, lower_mono r.lower_bound_inclusive a k, upper_mono r.upper_bound_exclusive b k)

-- A range with a point `m` in it, cut there: [lo, m) and [m, hi) include between them exactly the
-- keys of [lo, hi), and no key is in both.
pub includes_split :
    (r : KeyRange) (m k : Bytes)
    → includes r m ≡ true
    → (includes r k ≡ (
        includes (record r { upper_bound_exclusive = some m }) k
        || includes (record r { lower_bound_inclusive = some m }) k))
      × ((includes (record r { upper_bound_exclusive = some m }) k
            && includes (record r { lower_bound_inclusive = some m }) k)
          ≡ false)
unfolding includes
includes_split r m k h = ground (
  arith,
  lower_mono r.lower_bound_inclusive m k,
  upper_mono r.upper_bound_exclusive m k,
  bytes_lt_asymm k m,
)

-- A range of the protocol whose upper bound is the empty string includes no key.
pub from_proto-empty :
    (r : ProtoKeyRange) (k : Bytes)
    → r.upper_bound_exclusive ≡ []
    → includes (from_proto r) k ≡ false
unfolding includes from_proto
from_proto-empty r k e = ground (arith, bytes_lt-nil k)
