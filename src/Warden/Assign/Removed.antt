-- ===== src/Warden/Assign/Removed.antt =====
-- A server that is gone stays in the heap, and may be chosen again.
use atomix.Base.{ℕ, ◌+◌, ◌≡◌, ◌≢◌, refl, true, some, [], ◌∷◌, arith, ap, sym, lookup, insert}
use atomix.Warden.Servers.{HostInfo, HostIdentity, identity_discrete}
use atomix.Warden.Servers
use atomix.Warden.Loads.{
  RangeInfo, RangeAssignment, load_lt, pop_from, pop, Servings, push_range, take_server, group,
  loads, assign_to, assignments, assign_ranges,
}
use atomix.Warden.Assign.{
  State, assigned, current_servings, idle_loads, server_heap, take_removed, retain_unassigned, trim,
  publish, finish, reassign, difference, run_assignment_computation,
}

abbrev pub serves : HostInfo → RangeInfo → RangeAssignment
serves h r = record { assignee = h.identity.name; range = r }

-- `a` serves one range and `b` two; only `b` is still ready.
abbrev pub lost : ℕ → HostInfo → HostInfo → RangeInfo → RangeInfo → RangeInfo → State
lost v a b r x y = record {
  range_assignments = (v, serves a r ∷ serves b x ∷ serves b y ∷ []) ∷ [];
  current_version = v;
  ready_range_servers = b ∷ [];
  unassigned_base_ranges = [];
}

module _ (a b : HostInfo) (ne : a.identity.name ≢ b.identity.name) where
  other : b.identity ≢ a.identity
  other e = ne (ap (λ i. i.name) (sym e))

  difference-removed : difference (a ∷ b ∷ []) (b ∷ []) ≡ a ∷ []
  unfolding difference Servers.get
  difference-removed = ground (arith, other)

  difference-added : difference (b ∷ []) (a ∷ b ∷ []) ≡ []
  unfolding difference Servers.get
  difference-added = ground (arith, other)

  servings : RangeInfo → RangeInfo → RangeInfo → Servings
  servings r x y = (a.identity.name, r ∷ []) ∷ (b.identity.name, x ∷ y ∷ []) ∷ []

  group-lost :
      (r x y : RangeInfo) → group (serves a r ∷ serves b x ∷ serves b y ∷ []) [] ≡ servings r x y
  unfolding group push_range servings
  group-lost r x y = ground (arith, ne)

  take_removed-lost :
      (r x y : RangeInfo)
      → take_removed (a ∷ []) (servings r x y) ≡ (r ∷ [], (b.identity.name, x ∷ y ∷ []) ∷ [])
  unfolding take_removed take_server servings
  take_removed-lost r x y = ground arith

  heap-lost :
      (r x y : RangeInfo)
      → server_heap (servings r x y) [] (b ∷ [])
        ≡ record { count = 1; server = a.identity.name }
          ∷ record { count = 2; server = b.identity.name }
          ∷ []
  unfolding server_heap loads idle_loads servings
  heap-lost r x y = refl

  assign-lost :
      (r x y : RangeInfo)
      → assign_ranges
          (r ∷ [])
          (record { count = 1; server = a.identity.name }
            ∷ record { count = 2; server = b.identity.name }
            ∷ [])
          ((b.identity.name, x ∷ y ∷ []) ∷ [])
          []
        ≡ some (record {
          heap =
              record { count = 2; server = a.identity.name }
              ∷ record { count = 2; server = b.identity.name }
              ∷ [];
          servings = (b.identity.name, x ∷ y ∷ []) ∷ (a.identity.name, r ∷ []) ∷ [];
          updates = serves a r ∷ [];
        })
  unfolding assign_ranges pop pop_from load_lt push_range
  assign-lost r x y = ground (arith, ne)

  -- Server `a` serves one range and `b` serves two, and `a` is gone. The run that notices hands the
  -- range of `a` to `a` again, as the least loaded server of the heap: in the version that it
  -- publishes `a`, which is not ready, is still an assignee.
  pub removed_server_chosen :
      (v : ℕ) (r x y : RangeInfo)
      → run_assignment_computation (λ _ _. true) (lost v a b r x y) (a ∷ b ∷ [])
        ≡ assigned (record (lost v a b r x y) {
          range_assignments =
              (v, serves a r ∷ serves b x ∷ serves b y ∷ [])
              ∷ (v + 1, serves b x ∷ serves b y ∷ serves a r ∷ [])
              ∷ [];
          current_version = v + 1;
        })
  unfolding run_assignment_computation reassign finish publish current_servings trim assignments
      assign_to retain_unassigned lookup insert
  removed_server_chosen v r x y = ground (
    arith,
    difference-removed,
    difference-added,
    group-lost r x y,
    take_removed-lost r x y,
    heap-lost r x y,
    assign-lost r x y,
  )
