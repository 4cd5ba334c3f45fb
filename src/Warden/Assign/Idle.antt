-- ===== src/Warden/Assign/Idle.antt =====
-- Runs that assign nothing.
use atomix.Base.{
  ℕ, ◌≡◌, ◌≢◌, refl, Bool, true, false, Option, none, some, List, [], ◌∷◌, ◌++◌, arith,
  Option-cases, inl, inr,
}
use atomix.Warden.Servers.{HostInfo, identity_discrete}
use atomix.Warden.Servers
use atomix.Warden.Loads.{RangeInfo, RangeAssignment, Assigned, assign_ranges}
use atomix.Warden.Assign.{
  State, waits, assigned, difference, finish, reassign, current_servings, server_heap, take_removed,
  run_assignment_computation,
}

abbrev is_some {ℓ} : {A : Type ℓ} → Option A → Bool
is_some none = false
is_some (some x) = true

abbrev AllGot : List HostInfo → List HostInfo → Type 0
AllGot other [] = Unit {0}
AllGot other (h ∷ hs) = (is_some (Servers.get h.identity other) ≡ true) × AllGot other hs

AllGot-cons : (g : HostInfo) (other hs : List HostInfo) → AllGot other hs → AllGot (g ∷ other) hs
unfolding Servers.get
AllGot-cons g other [] h = tt
AllGot-cons g other (k ∷ hs) h = (ground arith, AllGot-cons g other hs h.1)

AllGot-self : (hs : List HostInfo) → AllGot hs hs
unfolding Servers.get
AllGot-self [] = tt
AllGot-self (h ∷ hs) = (ground arith, AllGot-cons h hs hs (AllGot-self hs))

difference-nil : (hs other : List HostInfo) → AllGot other hs → difference hs other ≡ []
unfolding difference
difference-nil [] other h = refl
difference-nil (k ∷ hs) other h = ground (arith, difference-nil hs other h.1)

finish-ne-assigned :
    (s s' : State) (to_assign : List RangeInfo) (o : Option Assigned)
    → finish (λ _ _. false) s to_assign o ≢ assigned s'
unfolding finish
finish-ne-assigned s s' to_assign none e = cc
finish-ne-assigned s s' to_assign (some out) e = cc

-- A run whose write fails assigns nothing.
pub run-ne-assigned :
    (s : State) (prev : List HostInfo) (s' : State)
    → run_assignment_computation (λ _ _. false) s prev ≢ assigned s'
unfolding run_assignment_computation reassign
run-ne-assigned s prev s' e = elim (Option-cases (current_servings s)) [
  | inl miss ↦ ground arith
  | inr (m, hit) ↦
      let T = take_removed (difference prev s.ready_range_servers) m in
      let to_assign = s.unassigned_base_ranges ++ T.0 in
      let heap = server_heap m (difference s.ready_range_servers prev) s.ready_range_servers in
      ground (arith, finish-ne-assigned s s' to_assign (assign_ranges to_assign heap T.1 []))
]

-- With no range waiting, a run that compares the ready servers with themselves waits.
pub run_unchanged :
    (persist : ℕ → List RangeAssignment → Bool) (s : State)
    → s.unassigned_base_ranges ≡ []
    → run_assignment_computation persist s s.ready_range_servers ≡ waits
unfolding run_assignment_computation
run_unchanged persist s e = ground (
  arith,
  difference-nil s.ready_range_servers s.ready_range_servers (AllGot-self s.ready_range_servers),
)
