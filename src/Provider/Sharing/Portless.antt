-- ===== src/Provider/Sharing/Portless.antt =====
-- What a service without ports gets when addresses are shared.
use kube_vip_cloud_provider.Prelude.{
  ℕ, ◌≡◌, refl, ◌≢◌, inl, inr, true, false, some, List, [], ◌∷◌, Bool-cases, All, Any, ok,
}
use kube_vip_cloud_provider.Netipx.{Netipx}
use kube_vip_cloud_provider.Kube.{Service}
use kube_vip_cloud_provider.Provider.Sharing.{
  PortMap, has_port, is_disjoint, map_implemented_services, discover_shared_vips,
}
use kube_vip_cloud_provider.Provider.Sharing.Ports.{find_ports}
use kube_vip_cloud_provider.Provider.Sharing.Marked.{Uses}
use kube_vip_cloud_provider.Provider.Sharing.Conflict.{IsListing, open_entry-NoCommonPort}
use kube_vip_cloud_provider.Provider.Sharing.Used.{find_ports-Uses}

-- The first entry that is open is chosen.
open_entry :
    (svc : Service) (m listing : PortMap)
    → svc.ports ≡ []
    → IsListing m listing
    → Any (λ e. has_port 0 e.1 ≡ false) listing
    → (ports : List ℕ) × (find_ports (discover_shared_vips svc listing) m ≡ some ports)
      × (has_port 0 ports ≡ false)
unfolding discover_shared_vips is_disjoint
open_entry svc m [] portless listed h = absurd h
open_entry svc m ((ip, ports) ∷ rest) portless listed h = elim (Bool-cases (has_port 0 ports)) [
  | inl closed ↦ elim h [
    | inl here ↦ absurd (cc (let q : has_port 0 ports ≡ false = here in q))
    | inr there ↦ rw (discover_shared_vips, closed) (open_entry svc m rest portless listed.1 there)
  ]
  | inr open_ ↦ rw (discover_shared_vips, open_, portless) (ports, listed.0, open_)
]

module _ (N : Netipx) where
  -- If the port map of the implemented services has an address that no service without ports
  -- reserves, then a service without ports gets, in whatever order the map is gone through, an
  -- address that some of them uses, and all that use it have ports.
  pub discover_shared_vips-portless :
      (svcs : List Service) (in_use : N.IPSet) (m listing : PortMap) (svc : Service)
      → map_implemented_services N svcs true ≡ ok (in_use, m)
      → IsListing m listing
      → svc.ports ≡ []
      → Any (λ e. has_port 0 e.1 ≡ false) listing
      → Any (λ (other : Service). Uses other (discover_shared_vips svc listing)) svcs
        × All
            (λ (other : Service). Uses other (discover_shared_vips svc listing) → other.ports ≢ [])
            svcs
  unfolding is_disjoint
  discover_shared_vips-portless svcs in_use m listing svc e listed portless h =
      let (ports, found, open_) = open_entry svc m listing portless listed h in
      let ip = discover_shared_vips svc listing in
      (
        find_ports-Uses N svcs in_use m ip ports e found,
        having_ports _ _ _ svcs
            (open_entry-NoCommonPort N svcs in_use m [] ip ports e found open_ refl),
      )
    where
      having_ports :
          (P Q R : Service → Type 0) (svcs : List Service)
          → All (λ s. P s → Q s × R s) svcs
          → All (λ s. P s → Q s) svcs
      having_ports P Q R [] h = tt
      having_ports P Q R (s ∷ svcs) h = ((λ p. (h.0 p).0), having_ports P Q R svcs h.1)
