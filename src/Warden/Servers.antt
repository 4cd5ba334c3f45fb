-- ===== src/Warden/Servers.antt =====
-- The range servers that are ready: `register_range_server` and `notify_range_server_unavailable`.
-- A set of servers is a list with one entry for each identity, as `HostInfoWrapper` compares them.
pub mod Epochs
use atomix.Base.{
  ℕ, ◌≡◌, Bool, true, false, Option, none, some, List, [], ◌∷◌, Bytes, leb, if◌then◌else◌, ite,
  ℕ_discrete, bytes_discrete,
}

pub record HostIdentity : Type 0 where
  pub name : Bytes
  pub zone : ℕ

pub record HostInfo : Type 0 where
  pub identity : HostIdentity
  pub address : ℕ
  pub warden_connection_epoch : ℕ

unfoldable pub identity_discrete : Discrete HostIdentity
unfolding ℕ_discrete bytes_discrete
identity_discrete = hlevel (ℕ_discrete, bytes_discrete)

-- `ready_servers.get`, `replace` and `remove`.
unfoldable pub get : HostIdentity → List HostInfo → Option HostInfo
get i [] = none
get i (h ∷ hs) = ite (identity_discrete i h.identity) (some h) (get i hs)

unfoldable pub replace : HostInfo → List HostInfo → List HostInfo
replace h [] = h ∷ []
replace h (g ∷ hs) = ite (identity_discrete h.identity g.identity) (h ∷ hs) (g ∷ replace h hs)

unfoldable pub remove : HostIdentity → List HostInfo → List HostInfo
remove i [] = []
remove i (h ∷ hs) = ite (identity_discrete i h.identity) (remove i hs) (h ∷ remove i hs)

-- `true` for `Ok`; a server that is refused changes nothing.
pub register_range_server : List HostInfo → HostInfo → List HostInfo × Bool
register_range_server ready host_info = elim (get host_info.identity ready) [
  | none ↦ (replace host_info ready, true)
  | some existing ↦
      if leb host_info.warden_connection_epoch existing.warden_connection_epoch
      then (ready, false)
      else (replace host_info ready, true)
]

pub notify_range_server_unavailable : List HostInfo → HostInfo → List HostInfo
notify_range_server_unavailable ready host_info = elim (get host_info.identity ready) [
  | none ↦ ready
  | some existing ↦
      if leb existing.warden_connection_epoch host_info.warden_connection_epoch
      then remove host_info.identity ready
      else ready
]
