-- ===== src/Provider/Sync/FreshVips.antt =====
-- The addresses that a new service may have beside the listed ones, for syncLoadBalancer of
-- pkg/provider/loadBalancer.go.
use kube_vip_cloud_provider.Prelude.{
  Bool, Any, String, ◌≡◌, refl, sym, ◌≢◌, ◌⊎◌, inl, inr, true, false, List, [], ◌∷◌, Bool-cases,
  is_empty, All, ok,
}
use kube_vip_cloud_provider.Netip.{Addr}
use kube_vip_cloud_provider.Netip.Print.{addr_string}
use kube_vip_cloud_provider.Netipx.{Netipx, SetLaws, AddLaws}
use kube_vip_cloud_provider.Kube.{Service, ConfigMap}
use kube_vip_cloud_provider.Ipam.FreeAddress.Extreme.{IsOrdinary}
use kube_vip_cloud_provider.Provider.Cluster.{Cluster}
use kube_vip_cloud_provider.Provider.Pool.{Discovered}
use kube_vip_cloud_provider.Provider.Sharing.{
  PortMap, map_implemented_services, discover_shared_vips,
}
use kube_vip_cloud_provider.Provider.Sharing.Marked.{Uses}
use kube_vip_cloud_provider.Provider.Sharing.Conflict.{
  IsListing, NoCommonPort, discover_shared_vips-no_conflict,
}
use kube_vip_cloud_provider.Netipx.Members.{IsAddr}
use kube_vip_cloud_provider.Provider.Sharing.Used.{discover_shared_vips-Uses}
use kube_vip_cloud_provider.Provider.Sharing.InUse.{Occupies, map_implemented_services-Contained}
use kube_vip_cloud_provider.Provider.Vips.Safe.{IsVip}
use kube_vip_cloud_provider.Provider.Sync.{preferred_ip, request}

-- An IPv4 address that a listed service uses; of those that do, none has a port of the new service
-- or is without ports.
abbrev pub IsShareable : Service → List Service → String → Type 0
IsShareable svc services vip =
    Any (λ (other : Service). Uses other vip) services
    × All
        (λ (other : Service).
          Uses other vip → (other.ports ≢ []) × NoCommonPort svc.ports other.ports)
        services

-- An address of one of the families that no listed service occupies, with or without a zone, and that
-- no IPv4 network reserves.
abbrev pub IsUnoccupied : List Service → String → Type 0
IsUnoccupied services vip =
    (ip : Addr) × (vip ≡ addr_string ip)
    × IsAddr ip
    × IsOrdinary ip
    × All (λ (other : Service). Occupies other ip → ⊥) services

-- An address that the new service may have beside the listed ones; one of theirs only if addresses are
-- shared.
abbrev pub IsFresh : Service → Bool → List Service → String → Type 0
IsFresh svc share services vip =
    (vip ≡ "0.0.0.0") ⊎ ((share ≡ true) × IsShareable svc services vip) ⊎ IsUnoccupied services vip

pub All-map :
    {A : Type 0} (P Q : A → Type 0) (xs : List A) → ((x : A) → P x → Q x) → All P xs → All Q xs
All-map P Q [] f h = tt
All-map P Q (x ∷ xs) f h = (f x h.0, All-map P Q xs f h.1)

module _ (K : Cluster) (N : Netipx) (order : PortMap → PortMap) where
  module _ (L : SetLaws N) (B : AddLaws N) (listing : (m : PortMap) → IsListing m (order m)) where
    shared-IsShareable :
        (svc : Service) (services : List Service) (in_use : N.IPSet) (m : PortMap) (vip : String)
        → map_implemented_services N services true ≡ ok (in_use, m)
        → vip ≡ discover_shared_vips svc (order m)
        → is_empty vip ≡ false
        → IsShareable svc services vip
    shared-IsShareable svc services in_use m vip e same there =
        let some_ : vip ≢ "" = λ n. cc (let q : is_empty vip ≡ true = rw n refl in q) in
        (
          discover_shared_vips-Uses N services in_use m (order m) svc vip e (listing m) (sym same)
              some_,
          discover_shared_vips-no_conflict N services in_use m (order m) svc vip e (listing m)
              (sym same) some_,
        )

    preferred-IsShareable :
        (svc : Service) (cm : ConfigMap) (d : Discovered) (services : List Service)
        (in_use : N.IPSet) (m : PortMap) (vip : String)
        → map_implemented_services N services d.allow_share ≡ ok (in_use, m)
        → vip ≡ preferred_ip K N order svc d m
        → is_empty (preferred_ip K N order svc d m) ≡ false
        → (d.allow_share ≡ true) × IsShareable svc services vip
    preferred-IsShareable svc cm d services in_use m vip e same there =
        elim (Bool-cases d.allow_share) [
          | inl shares ↦ (
            shares,
            shared-IsShareable svc services in_use m vip (rw shares at e) (rw shares at same)
                (rw same there),
          )
          | inr alone ↦ absurd (cc (let q : true ≡ false = rw alone at there in q))
        ]

    pub vip-IsFresh :
        (svc : Service) (cm : ConfigMap) (d : Discovered) (services : List Service)
        (in_use : N.IPSet) (m : PortMap)
        → map_implemented_services N services d.allow_share ≡ ok (in_use, m)
        → (vip : String) → IsVip N L (request K N order svc cm d in_use m) vip
        → IsFresh svc d.allow_share services vip
    vip-IsFresh svc cm d services in_use m e vip (inl dhcp) = inl dhcp
    vip-IsFresh svc cm d services in_use m e vip (inr (inl (same, there))) =
        inr (inl (preferred-IsShareable svc cm d services in_use m vip e same there))
    vip-IsFresh svc cm d services in_use m e vip (inr (inr (ip, text, valid, free, ordinary))) =
        inr (
          inr (
            ip,
            text,
            valid,
            ordinary,
            All-map _ _ services (λ other contained occupies. cc (contained ip occupies))
                (map_implemented_services-Contained N B services d.allow_share in_use m e),
          ))
