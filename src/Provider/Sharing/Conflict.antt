-- ===== src/Provider/Sharing/Conflict.antt =====
-- The ports of the services that use the address that discoverSharedVIPs picks.
use kube_vip_cloud_provider.Prelude.{
  >>=-eq-ok, ℕ, String, ◌≡◌, sym, subst, ◌≢◌, inl, inr, true, false, some, List, [], ◌∷◌, arith,
  Bool-cases, All, ◌>>=◌, ok,
}
use kube_vip_cloud_provider.Netipx.{Netipx}
use kube_vip_cloud_provider.Kube.{Service, ServicePort}
use kube_vip_cloud_provider.Provider.Sharing.{
  PortMap, has_port, Implemented, add_services, map_implemented_services, is_disjoint,
  discover_shared_vips,
}
use kube_vip_cloud_provider.Provider.Sharing.Ports.{find_ports, HasAt, Marks}
use kube_vip_cloud_provider.Provider.Sharing.Marked.{Uses, add_services-Marks}

-- The entries of a map in some order.
abbrev pub IsListing : PortMap → PortMap → Type 0
IsListing m = All (λ e. find_ports e.0 m ≡ some e.1)

-- No port of the first list is in the second.
abbrev pub NoCommonPort : List ServicePort → List ServicePort → Type 0
NoCommonPort ps qs = All (λ p. All (λ q. p.port ≢ q.port) qs) ps

-- The address that is chosen has an entry without the port 0 and without the service's ports.
pub chosen_entry :
    (svc : Service) (m listing : PortMap) (ip : String)
    → IsListing m listing
    → discover_shared_vips svc listing ≡ ip
    → ip ≢ ""
    → (ports : List ℕ) × (find_ports ip m ≡ some ports)
      × (has_port 0 ports ≡ false)
      × (is_disjoint svc.ports ports ≡ true)
unfolding discover_shared_vips
chosen_entry svc m [] ip h e ne = absurd (ne (sym e))
chosen_entry svc m ((k, ports) ∷ rest) ip h e ne = elim (Bool-cases (has_port 0 ports)) [
  | inl closed ↦ chosen_entry svc m rest ip h.1 (rw (closed, discover_shared_vips) at e) ne
  | inr open_ ↦ elim (Bool-cases (is_disjoint svc.ports ports)) [
    | inl fits ↦
        let same : k ≡ ip = rw (open_, fits, discover_shared_vips) at e in
        (ports, subst (λ t. find_ports t m ≡ some ports) same h.0, open_, fits)
    | inr clash ↦ chosen_entry svc m rest ip h.1 (rw (open_, clash, discover_shared_vips) at e) ne
  ]
]

-- A port that the set lacks is not one of the ports that it has.
no_common :
    (p : ℕ) (qs : List ServicePort) (used : List ℕ)
    → has_port p used ≡ false
    → All (λ q. has_port q.port used ≡ true) qs
    → All (λ q. p ≢ q.port) qs
no_common p [] used h k = tt
no_common p (q ∷ qs) used h k =
    ((λ e. cc (subst (λ t. has_port t used ≡ false) e h, k.0)), no_common p qs used h k.1)

disjoint_NoCommonPort :
    (ps qs : List ServicePort) (used : List ℕ)
    → is_disjoint ps used ≡ true
    → All (λ q. has_port q.port used ≡ true) qs
    → NoCommonPort ps qs
unfolding is_disjoint
disjoint_NoCommonPort [] qs used h k = tt
disjoint_NoCommonPort (p ∷ ps) qs used h k =
    (no_common p.port qs used (ground arith) k, disjoint_NoCommonPort ps qs used (ground arith) k)

-- What a mark says of an open entry.
of_Marks :
    (ps qs : List ServicePort) (ip : String) (m : PortMap) (ports : List ℕ)
    → find_ports ip m ≡ some ports
    → has_port 0 ports ≡ false
    → is_disjoint ps ports ≡ true
    → Marks qs ip m
    → (qs ≢ []) × NoCommonPort ps qs
of_Marks ps qs ip m ports e open_ fits (inl closed) =
    absurd (cc (let q : has_port 0 ports ≡ true = rw e at closed in q))
of_Marks ps qs ip m ports e open_ fits (inr (some_, all_)) =
    (some_, disjoint_NoCommonPort ps qs ports fits (at_ports qs all_))
  where
    at_one : (p : ℕ) → HasAt ip p m → has_port p ports ≡ true
    at_one p h = rw e at h

    at_ports :
        (qs : List ServicePort)
        → All (λ q. HasAt ip q.port m) qs
        → All (λ q. has_port q.port ports ≡ true) qs
    at_ports [] h = tt
    at_ports (q ∷ qs) h = (at_one q.port h.0, at_ports qs h.1)

All-apply :
    {P Q : Service → Type 0} (svcs : List Service)
    → ((svc : Service) → P svc → Q svc)
    → All P svcs
    → All Q svcs
All-apply [] f h = tt
All-apply (svc ∷ svcs) f h = (f svc h.0, All-apply svcs f h.1)

module _ (N : Netipx) where
  -- The services that use an address whose entry is open and without the service's ports.
  pub open_entry-NoCommonPort :
      (svcs : List Service) (in_use : N.IPSet) (m : PortMap) (ps : List ServicePort) (ip : String)
      (ports : List ℕ)
      → map_implemented_services N svcs true ≡ ok (in_use, m)
      → find_ports ip m ≡ some ports
      → has_port 0 ports ≡ false
      → is_disjoint ps ports ≡ true
      → All
          (λ (other : Service). Uses other ip → (other.ports ≢ []) × NoCommonPort ps other.ports)
          svcs
  unfolding map_implemented_services
  open_entry-NoCommonPort svcs in_use m ps ip ports e found open_ fits =
      let start : Implemented N = record { builder = N.new_builder; port_map = [] } in
      let (i, services, rest) =
        >>=-eq-ok (add_services N true svcs start)
          (λ (i : Implemented N). N.ip_set i.builder >>= λ (s : N.IPSet). ok (s, i.port_map)) e in
      let (s, _, last) =
        >>=-eq-ok (N.ip_set i.builder) (λ (s : N.IPSet). ok (s, i.port_map)) rest in
      let same : i.port_map ≡ m = cc in
      All-apply svcs
        (λ other marks uses.
          of_Marks ps other.ports ip m ports found open_ fits
            (subst (Marks other.ports ip) same (marks uses)))
        (add_services-Marks N ip svcs start i services)

  -- An address that discoverSharedVIPs picks from the port map of the implemented services, in
  -- whatever order it goes through the map, has no port in common with the new service: each of the
  -- services that use the address has ports, and none of them is one of the new service's.
  pub discover_shared_vips-no_conflict :
      (svcs : List Service) (in_use : N.IPSet) (m listing : PortMap) (svc : Service) (ip : String)
      → map_implemented_services N svcs true ≡ ok (in_use, m)
      → IsListing m listing
      → discover_shared_vips svc listing ≡ ip
      → ip ≢ ""
      → All
          (λ (other : Service).
            Uses other ip → (other.ports ≢ []) × NoCommonPort svc.ports other.ports)
          svcs
  discover_shared_vips-no_conflict svcs in_use m listing svc ip e list chosen ne =
      let (ports, found, open_, fits) = chosen_entry svc m listing ip list chosen ne in
      open_entry-NoCommonPort svcs in_use m svc.ports ip ports e found open_ fits
