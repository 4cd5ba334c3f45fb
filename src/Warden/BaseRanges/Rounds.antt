-- ===== src/Warden/BaseRanges/Rounds.antt =====
-- Reading the base ranges, and what a round does after one whose write has failed.
use atomix.Base.{
  ℕ, ◌≡◌, ◌≢◌, refl, Bool, true, false, Option, none, some, List, [], ◌∷◌, ◌++◌, Bytes, ℕ_discrete,
  contains, arith, if◌then◌else◌,
}
use mathlib.Core.List.{append-nil}
use atomix.Common.KeyRange.{ProtoKeyRange, includes}
use atomix.Routing.{base_key_ranges, full_range_id_of_key}
use atomix.Routing.Search.{default_range_unroutable}
use atomix.Warden.Servers.{HostInfo}
use atomix.Warden.Loads.{RangeInfo, RangeAssignment}
use atomix.Warden.Assign.{
  State, Outcome, waits, write_failed, panics, assigned, ids, run_assignment_computation,
}
use atomix.Warden.Assign.Idle.{run-ne-assigned, run_unchanged}
use atomix.Warden.BaseRanges.{
  range_info_of, reported_ranges, Warden, not_among, is_nil, extend, read_base_ranges, after, round,
}

-- All ids of the ranges are known.
abbrev pub AllKnown : List ℕ → List RangeInfo → Type 0
AllKnown known [] = Unit {0}
AllKnown known (r ∷ rs) = (contains ℕ_discrete r.id known ≡ true) × AllKnown known rs

not_among-nil : (known : List ℕ) (rs : List RangeInfo) → AllKnown known rs → not_among known rs ≡ []
unfolding not_among
not_among-nil known [] h = refl
not_among-nil known (r ∷ rs) h = ground (arith, not_among-nil known rs h.1)

AllKnown-of_nil :
    (known : List ℕ) (rs : List RangeInfo) → not_among known rs ≡ [] → AllKnown known rs
unfolding not_among
AllKnown-of_nil known [] e = tt
AllKnown-of_nil known (r ∷ rs) e = (ground arith, AllKnown-of_nil known rs (ground arith))

contains-ids-append :
    (k : ℕ) (xs ys : List RangeInfo)
    → (contains ℕ_discrete k (ids xs) ≡ true → contains ℕ_discrete k (ids (xs ++ ys)) ≡ true)
      × (contains ℕ_discrete k (ids ys) ≡ true → contains ℕ_discrete k (ids (xs ++ ys)) ≡ true)
unfolding contains
contains-ids-append k [] ys = (λ e. cc, λ e. e)
contains-ids-append k (x ∷ xs) ys =
    let ih = contains-ids-append k xs ys in (λ e. ground (arith, ih), λ e. ground (arith, ih))

AllKnown-append : (xs ys rs : List RangeInfo) → AllKnown (ids xs) rs → AllKnown (ids (xs ++ ys)) rs
AllKnown-append xs ys [] h = tt
AllKnown-append xs ys (r ∷ rs) h =
    ((contains-ids-append r.id xs ys).0 h.0, AllKnown-append xs ys rs h.1)

contains-ids-middle :
    (k : ℕ) (xs : List RangeInfo) (r : RangeInfo) (ys : List RangeInfo)
    → (contains ℕ_discrete k (ids (xs ++ ys)) ≡ true
        → contains ℕ_discrete k (ids (xs ++ r ∷ ys)) ≡ true)
      × (contains ℕ_discrete r.id (ids (xs ++ r ∷ ys)) ≡ true)
unfolding contains
contains-ids-middle k [] r ys = (λ e. ground arith, ground arith)
contains-ids-middle k (x ∷ xs) r ys =
    let ih = contains-ids-middle k xs r ys in (λ e. ground (arith, ih), ground (arith, ih))

AllKnown-middle :
    (xs : List RangeInfo) (r : RangeInfo) (ys rs : List RangeInfo)
    → AllKnown (ids (xs ++ ys)) rs
    → AllKnown (ids (xs ++ r ∷ ys)) rs
AllKnown-middle xs r ys [] h = tt
AllKnown-middle xs r ys (q ∷ rs) h =
    ((contains-ids-middle q.id xs r ys).0 h.0, AllKnown-middle xs r ys rs h.1)

-- With the ranges that are new, all reported ids are known.
AllKnown-after : (base rs : List RangeInfo) → AllKnown (ids (base ++ not_among (ids base) rs)) rs
unfolding not_among
AllKnown-after base [] = tt
AllKnown-after base (r ∷ rs) =
    step (not_among (ids base) rs) (AllKnown-after base rs) (contains ℕ_discrete r.id (ids base))
      refl
  where
    step :
        (rest : List RangeInfo)
        → AllKnown (ids (base ++ rest)) rs
        → (t : Bool) → contains ℕ_discrete r.id (ids base) ≡ t
        → AllKnown (ids (base ++ (if t then rest else r ∷ rest))) (r ∷ rs)
    step rest ih true e = ((contains-ids-append r.id base rest).0 e, ih)
    step rest ih false e =
        ((contains-ids-middle r.id base r rest).1, AllKnown-middle base r rest rs ih)

not_among_AllKnown :
    (base new reported : List RangeInfo)
    → AllKnown (ids reported) base
    → AllKnown (ids reported) new
    → AllKnown (ids reported) (base ++ new)
not_among_AllKnown [] new reported h k = k
not_among_AllKnown (b ∷ base) new reported h k = (h.0, not_among_AllKnown base new reported h.1 k)

AllKnown-not_among :
    (known : List ℕ) (full rs : List RangeInfo)
    → AllKnown (ids full) rs
    → AllKnown (ids full) (not_among known rs)
unfolding not_among
AllKnown-not_among known full [] h = tt
AllKnown-not_among known full (r ∷ rs) h = ground (arith, AllKnown-not_among known full rs h.1)

AllKnown-self : (rs : List RangeInfo) → AllKnown (ids rs) rs
unfolding contains
AllKnown-self [] = tt
AllKnown-self (r ∷ rs) = (ground arith, AllKnown-middle [] r rs rs (AllKnown-self rs))

extend-nil : (w : Warden) → extend w [] ≡ w
unfolding extend
extend-nil w = ground (arith, append-nil w.base_ranges, append-nil w.state.unassigned_base_ranges)

is_nil-eq : (rs : List RangeInfo) → is_nil rs ≡ true → rs ≡ []
is_nil-eq [] e = refl
is_nil-eq (r ∷ rs) e = cc

read_base_ranges-inv :
    (w : Warden) (keyspaces : List (ℕ × List ProtoKeyRange)) (stored : Bool)
    → (read_base_ranges w (some keyspaces) stored).1 ≡ true
    → (not_among (ids (reported_ranges keyspaces)) w.base_ranges ≡ [])
      × ((read_base_ranges w (some keyspaces) stored).0
          ≡ extend w (not_among (ids w.base_ranges) (reported_ranges keyspaces)))
unfolding read_base_ranges
read_base_ranges-inv w keyspaces stored e = (is_nil-eq _ (ground arith), ground arith)

-- When every reported range is known and every known range is reported, a read changes nothing.
read_base_ranges_known :
    (w : Warden) (keyspaces : List (ℕ × List ProtoKeyRange))
    → AllKnown (ids w.base_ranges) (reported_ranges keyspaces)
    → AllKnown (ids (reported_ranges keyspaces)) w.base_ranges
    → read_base_ranges w (some keyspaces) true ≡ (w, true)
unfolding read_base_ranges
read_base_ranges_known w keyspaces h k = rw (
  not_among-nil (ids (reported_ranges keyspaces)) w.base_ranges k,
  not_among-nil (ids w.base_ranges) (reported_ranges keyspaces) h,
  extend-nil w,
)

extend-known :
    (w : Warden) (rs : List RangeInfo)
    → not_among (ids rs) w.base_ranges ≡ []
    → AllKnown (ids (extend w (not_among (ids w.base_ranges) rs)).base_ranges) rs
      × AllKnown (ids rs) (extend w (not_among (ids w.base_ranges) rs)).base_ranges
unfolding extend
extend-known w rs e = (
  AllKnown-after w.base_ranges rs,
  not_among_AllKnown w.base_ranges (not_among (ids w.base_ranges) rs) rs
      (AllKnown-of_nil (ids rs) w.base_ranges e)
      (AllKnown-not_among (ids w.base_ranges) rs rs (AllKnown-self rs)),
)

read_base_ranges_failed :
    (w : Warden) (keyspaces : List (ℕ × List ProtoKeyRange)) (stored : Bool)
    → (read_base_ranges w (some keyspaces) stored).1 ≡ false
    → (read_base_ranges w (some keyspaces) stored).0 ≡ w
unfolding read_base_ranges
read_base_ranges_failed w keyspaces stored e = ground arith

-- A successful read takes in every reported range, and a second read of the same report that is
-- stored changes nothing; a read that fails changes nothing.
pub read_base_ranges_twice :
    (w : Warden) (keyspaces : List (ℕ × List ProtoKeyRange)) (stored : Bool)
    → ((read_base_ranges w (some keyspaces) stored).1 ≡ true
        → let w' = (read_base_ranges w (some keyspaces) stored).0 in
          AllKnown (ids w'.base_ranges) (reported_ranges keyspaces)
          × (read_base_ranges w' (some keyspaces) true ≡ (w', true)))
      × ((read_base_ranges w (some keyspaces) stored).1 ≡ false
          → (read_base_ranges w (some keyspaces) stored).0 ≡ w)
read_base_ranges_twice w keyspaces stored = (
  λ e.
      let (none_lost, same) = read_base_ranges-inv w keyspaces stored e in
      let (h, k) = extend-known w (reported_ranges keyspaces) none_lost in
      rw same (h, read_base_ranges_known _ keyspaces h k),
  λ e. read_base_ranges_failed w keyspaces stored e,
)

after_unless_assigned : (s : State) (o : Outcome) → ((s' : State) → o ≢ assigned s') → after s o ≡ s
after_unless_assigned s waits h = refl
after_unless_assigned s write_failed h = refl
after_unless_assigned s panics h = refl
after_unless_assigned s (assigned s') h = absurd (h s' refl)

-- A round whose write fails forgets which servers were gone: while no base range is new or waiting
-- and no server comes or goes, the rounds that follow assign nothing, however their writes would
-- end, and the ranges of a server that was removed before the failure stay with it.
pub failed_write_forgets :
    (persist : ℕ → List RangeAssignment → Bool) (reported : Option (List (ℕ × List ProtoKeyRange)))
    (stored : Bool) (w : Warden) (prev : List HostInfo)
    → (read_base_ranges w reported stored).0 ≡ w
    → w.state.unassigned_base_ranges ≡ []
    → (round (λ _ _. false) reported stored (w, prev) ≡ (w, w.state.ready_range_servers))
      × (round persist reported stored (w, w.state.ready_range_servers)
          ≡ (w, w.state.ready_range_servers))
unfolding round
failed_write_forgets persist reported stored w prev same e = (
  ground (
    arith,
    after_unless_assigned w.state (run_assignment_computation (λ _ _. false) w.state prev)
        (run-ne-assigned w.state prev),
  ),
  ground (arith, run_unchanged persist w.state e),
)

-- The one range of a keyspace that is created with no ranges: to the warden it covers every key, and
-- the frontend routes no key to it.
pub default_range_disagreement :
    (new_v4 : ℕ → ℕ) (keyspace : ℕ) (key : Bytes)
    → ((r : ProtoKeyRange) × (base_key_ranges new_v4 [] ≡ r ∷ [])
        × (includes (range_info_of keyspace r).key_range key ≡ true))
      × (full_range_id_of_key keyspace (base_key_ranges new_v4 []) key ≡ none)
unfolding base_key_ranges range_info_of includes
default_range_disagreement new_v4 keyspace key = (
  (
    record { base_range_uuid = new_v4 0; lower_bound_inclusive = []; upper_bound_exclusive = [] },
    refl,
    refl,
  ),
  default_range_unroutable new_v4 keyspace key,
)
