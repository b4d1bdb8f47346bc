-- ===== src/Provider/Sharing.antt =====
-- Addresses that several services share: parseAddrList, mapImplementedServices and
-- discoverSharedVIPs of pkg/provider/loadBalancer.go.
pub mod Ports
pub mod Marked
pub mod Conflict
pub mod InUse
pub mod Used
pub mod Portless
use kube_vip_cloud_provider.Prelude.{
  Option, ℕ, String, Bool, true, false, not, ◌&&◌, ◌||◌, none, some, List, [], ◌∷◌, str_eq, ◌==◌,
  if◌then◌else◌, split, Result, ◌>>=◌, ok,
}
use kube_vip_cloud_provider.Netip.{Addr, is4}
use kube_vip_cloud_provider.Netip.Parse.{parse_addr}
use kube_vip_cloud_provider.Netip.Print.{addr_string}
use kube_vip_cloud_provider.Netipx.{Netipx}
use kube_vip_cloud_provider.Kube.{Service, ServicePort}
use kube_vip_cloud_provider.Kube.GoMap.{lookup}

abbrev pub loadbalancer_ips_annotation : String
loadbalancer_ips_annotation = "kube-vip.io/loadbalancerIPs"

unfoldable pub parse_addrs : List String → Result (List Addr)
parse_addrs [] = ok []
parse_addrs (s ∷ ss) = do addr ← parse_addr s; addrs ← parse_addrs ss; ok (addr ∷ addrs)

unfoldable pub parse_addr_list : String → Result (List Addr)
unfolding parse_addrs
parse_addr_list input = parse_addrs (split b',' input)

-- `map[string]*set.Set[int32]`: the ports of an address that are in use.
abbrev pub PortMap : Type 0
PortMap = List (String × List ℕ)

unfoldable pub has_port : ℕ → List ℕ → Bool
has_port p [] = false
has_port p (q ∷ qs) = q == p || has_port p qs

-- `portSet.Insert(port)`, of a set that is made first if the address has none.
unfoldable pub insert_port : String → ℕ → PortMap → PortMap
insert_port ip port [] = (ip, port ∷ []) ∷ []
insert_port ip port ((k, ports) ∷ m) =
    if str_eq k ip then (k, port ∷ ports) ∷ m else (k, ports) ∷ insert_port ip port m

unfoldable pub insert_ports : String → List ServicePort → PortMap → PortMap
insert_ports ip [] m = m
insert_ports ip (p ∷ ps) m = insert_ports ip ps (insert_port ip p.port m)

-- `newSet := set.New[int32](0); servicePortMap[ip] = &newSet`
unfoldable pub reserve_ip : String → PortMap → PortMap
reserve_ip ip [] = (ip, 0 ∷ []) ∷ []
reserve_ip ip ((k, ports) ∷ m) =
    if str_eq k ip then (k, 0 ∷ []) ∷ m else (k, ports) ∷ reserve_ip ip m

-- One address of a service.
unfoldable pub note_ports : Bool → List ServicePort → Addr → PortMap → PortMap
note_ports allow_share ports addr m =
    if allow_share && is4 addr
    then elim ports [
      | [] ↦ reserve_ip (addr_string addr) m
      | p ∷ ps ↦ insert_ports (addr_string addr) (p ∷ ps) m
    ]
    else m

module _ (N : Netipx) where
  pub record Implemented : Type 0 where
    pub builder : N.IPSetBuilder
    pub port_map : PortMap

  unfoldable pub add_addrs : Bool → List ServicePort → List Addr → Implemented → Implemented
  add_addrs allow_share ports [] i = i
  add_addrs allow_share ports (addr ∷ addrs) i = add_addrs allow_share ports addrs (record {
    builder = N.add i.builder addr;
    port_map = note_ports allow_share ports addr i.port_map;
  })

  -- The addresses of an annotation, if there is one.
  unfoldable pub add_annotated :
      Bool → List ServicePort → Option String → Implemented → Result Implemented
  add_annotated allow_share ports none i = ok i
  add_annotated allow_share ports (some ips) i = do
    addrs ← parse_addr_list ips
    ok (add_addrs allow_share ports addrs i)

  -- One round of the loop over the services.
  unfoldable pub add_service : Bool → Service → Implemented → Result Implemented
  unfolding add_annotated
  add_service allow_share svc i =
      add_annotated allow_share svc.ports (lookup loadbalancer_ips_annotation svc.annotations) i

  unfoldable pub add_services : Bool → List Service → Implemented → Result Implemented
  add_services allow_share [] i = ok i
  add_services allow_share (svc ∷ svcs) i = do
    i' ← add_service allow_share svc i
    add_services allow_share svcs i'

  unfoldable pub map_implemented_services : List Service → Bool → Result (N.IPSet × PortMap)
  map_implemented_services svcs allow_share = do
    i ← add_services allow_share svcs (record { builder = N.new_builder; port_map = [] })
    in_use ← N.ip_set i.builder
    ok (in_use, i.port_map)

-- `servicePorts.Intersection(portSet)` is empty.
unfoldable pub is_disjoint : List ServicePort → List ℕ → Bool
is_disjoint [] used = true
is_disjoint (p ∷ ps) used = not (has_port p.port used) && is_disjoint ps used

-- The loop over the map, in an order that Go does not fix: that of the list.
unfoldable pub discover_shared_vips : Service → PortMap → String
discover_shared_vips svc [] = ""
discover_shared_vips svc ((ip, ports) ∷ m) =
    let rest = discover_shared_vips svc m in
    if has_port 0 ports then rest else if is_disjoint svc.ports ports then ip else rest
