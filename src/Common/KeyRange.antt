-- ===== src/Common/KeyRange.antt =====
-- common/src/key_range.rs: a half-open range of keys, either bound of which may be missing.
pub mod Split
mod Examples
use atomix.Base.{ℕ, Bytes, Bool, true, not, ◌&&◌, Option, none, some, [], bytes_lt}

pub record KeyRange : Type 0 where
  pub lower_bound_inclusive : Option Bytes
  pub upper_bound_exclusive : Option Bytes

-- `key >= b`, and `true` where there is no bound.
pub within_lower : Option Bytes → Bytes → Bool
within_lower none key = true
within_lower (some b) key = not (bytes_lt key b)

pub within_upper : Option Bytes → Bytes → Bool
within_upper none key = true
within_upper (some b) key = bytes_lt key b

unfoldable pub includes : KeyRange → Bytes → Bool
unfolding within_lower within_upper
includes r key =
    within_lower r.lower_bound_inclusive key && within_upper r.upper_bound_exclusive key

abbrev pub all : KeyRange
all = record { lower_bound_inclusive = none; upper_bound_exclusive = none }

abbrev pub empty : KeyRange
empty = record { lower_bound_inclusive = some []; upper_bound_exclusive = some [] }

-- The protocol's `KeyRange`: its two byte fields cannot be missing. Its uuid is taken as parsed.
pub record ProtoKeyRange : Type 0 where
  pub base_range_uuid : ℕ
  pub lower_bound_inclusive : Bytes
  pub upper_bound_exclusive : Bytes

unfoldable pub from_proto : ProtoKeyRange → KeyRange
from_proto key_range = record {
  lower_bound_inclusive = some key_range.lower_bound_inclusive;
  upper_bound_exclusive = some key_range.upper_bound_exclusive;
}
