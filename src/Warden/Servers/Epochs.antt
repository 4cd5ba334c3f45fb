-- ===== src/Warden/Servers/Epochs.antt =====
-- Connection epochs: which connection of a server counts.
use atomix.Base.{
  ◌≡◌, ◌≢◌, ◌≤◌, ◌<◌, refl, true, false, none, some, List, [], ◌∷◌, arith, ite, ◌↔◌, Option-cases,
  inl, inr,
}
use atomix.Warden.Servers.{
  HostIdentity, HostInfo, identity_discrete, get, replace, remove, register_range_server,
  notify_range_server_unavailable,
}

get-replace :
    (i : HostIdentity) (h : HostInfo) (hs : List HostInfo)
    → get i (replace h hs) ≡ ite (identity_discrete i h.identity) (some h) (get i hs)
unfolding get replace
get-replace i h [] = refl
get-replace i h (g ∷ hs) = ground (arith, get-replace i h hs)

get-remove :
    (i j : HostIdentity) (hs : List HostInfo)
    → get i (remove j hs) ≡ ite (identity_discrete i j) none (get i hs)
unfolding get remove
get-remove i j [] = ground arith
get-remove i j (g ∷ hs) = ground (arith, get-remove i j hs)

-- Is `h` refused: a connection of the same server, at least as new, is known.
abbrev pub IsStale : List HostInfo → HostInfo → Type 0
IsStale ready h =
    (g : HostInfo) × (get h.identity ready ≡ some g)
    × (h.warden_connection_epoch ≤ g.warden_connection_epoch)

-- A registration is refused exactly if a connection of the same server with the same or a newer
-- epoch is known. Refused, it changes nothing; accepted, it is the server's connection from then on.
-- Other servers are not affected.
pub register_range_server_lem :
    (ready : List HostInfo) (h : HostInfo)
    → ((register_range_server ready h).1 ≡ false ↔ IsStale ready h)
      × ((register_range_server ready h).1 ≡ false → (register_range_server ready h).0 ≡ ready)
      × ((register_range_server ready h).1 ≡ true
          → get h.identity (register_range_server ready h).0 ≡ some h)
      × ((i : HostIdentity)
          → i ≢ h.identity
          → get i (register_range_server ready h).0 ≡ get i ready)
unfolding register_range_server
register_range_server_lem ready h = (
  (
    λ e. elim (Option-cases (get h.identity ready)) [
      | inl miss ↦ absurd (ground arith)
      | inr (g, hit) ↦ (g, hit, ground arith)
    ],
    λ (g, hit, le). ground arith,
  ),
  ground arith,
  λ e. ground (arith, get-replace h.identity h ready),
  λ i ne. ground (arith, get-replace i h ready),
)

-- A disconnect of an older connection than the one that is registered changes nothing; of the
-- registered one, or a newer one, it removes the server. Other servers are not affected.
pub notify_range_server_unavailable_lem :
    (ready : List HostInfo) (h g : HostInfo)
    → get h.identity ready ≡ some g
    → (h.warden_connection_epoch < g.warden_connection_epoch
        → notify_range_server_unavailable ready h ≡ ready)
      × (g.warden_connection_epoch ≤ h.warden_connection_epoch
          → get h.identity (notify_range_server_unavailable ready h) ≡ none)
      × ((i : HostIdentity)
          → i ≢ h.identity
          → get i (notify_range_server_unavailable ready h) ≡ get i ready)
unfolding notify_range_server_unavailable
notify_range_server_unavailable_lem ready h g e = (
  λ lt. ground arith,
  λ le. ground (arith, get-remove h.identity h.identity ready),
  λ i ne. ground (arith, get-remove i h.identity ready),
)
