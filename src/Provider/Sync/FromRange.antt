-- ===== src/Provider/Sync/FromRange.antt =====
-- The reconciliation of a new service of IPv4 in a namespace with a pool of ranges, from the config
-- map to the last write: syncLoadBalancer of pkg/provider/loadBalancer.go.
use kube_vip_cloud_provider.Prelude.{
  String, ◌≡◌, refl, sym, ap, ◌∙◌, subst, ◌⊎◌, inl, inr, true, false, Option, none, some, List,
  contains_byte, is_empty, All, GoError, Result, out_of_ips, ok,
}
use kube_vip_cloud_provider.Netip.{Addr}
use kube_vip_cloud_provider.Netip.Print.{addr_string}
use kube_vip_cloud_provider.Netipx.{Netipx, SetLaws, AddLaws, RangeLaws}
use kube_vip_cloud_provider.Kube.{Service, ConfigMap}
use kube_vip_cloud_provider.Ipam.AddressBuilder.{build_addresses_from_range, skips_ends}
use kube_vip_cloud_provider.Ipam.FreeAddress.{descending}
use kube_vip_cloud_provider.Ipam.FreeAddress.Order.{Precedes}
use kube_vip_cloud_provider.Ipam.Families.{Pools, split_ranges_by_ip_family}
use kube_vip_cloud_provider.Ipam.Manager.Calls.{Kind, of_range}
use kube_vip_cloud_provider.Ipam.Manager.Cache.{IsCoherent}
use kube_vip_cloud_provider.Provider.Cluster.{Cluster}
use kube_vip_cloud_provider.Provider.Pool.{discover_pool, Discovered}
use kube_vip_cloud_provider.Provider.Sharing.{PortMap, map_implemented_services}
use kube_vip_cloud_provider.Provider.Sharing.InUse.{Occupies, map_implemented_services-Contained}
use kube_vip_cloud_provider.Provider.Vips.{Managers, discover_vips, ipv6_first}
use kube_vip_cloud_provider.Provider.Vips.FromRange.{
  OneStack, IsFreeIpv4, GivesFirst, discover_vips-GivesFirst,
}
use kube_vip_cloud_provider.Provider.Sync.{
  implementation_label, is_annotated, update_spec, check_legacy, after_vips, after_map, after_list,
  after_pool, after_config, assign_vips, preferred_ip, request, World, Reply, reply_to, with_error,
  sync_load_balancer, interface_for, list_namespace, get_or_create_config_map,
}
use kube_vip_cloud_provider.Provider.Sync.FreshVips.{All-map}

module _ (K : Cluster) (N : Netipx) (order : PortMap → PortMap) where
  reply_to_state : (svc : Service) (u : K.State × Option GoError) → (reply_to K svc u).0 ≡ u.0
  reply_to_state svc (st, none) = refl
  reply_to_state svc (st, some e) = refl

  module _ (svc : Service) (cm : ConfigMap) (st' : K.State) (d : Discovered)
      (services : List Service) (in_use : N.IPSet) (m : PortMap) where
    abbrev first_edit : Addr → Service → Service
    first_edit ip = assign_vips (addr_string ip) (interface_for K N order cm svc (addr_string ip))

    -- The first free address of the set is written to the service, by the update and with its
    -- reply, and no listed service occupies it; or there is none, and the cluster is left as the
    -- list of the services left it.
    abbrev pub WritesFirst : N.IPSet → String → World K N order × Reply → Type 0
    WritesFirst s pool (w', reply) =
        ((ip : Addr) × IsFreeIpv4 N (request K N order svc cm d in_use m) s ip
          × All (λ (other : Service). Occupies other ip → ⊥) services
          × ((x : Addr)
              → IsFreeIpv4 N (request K N order svc cm d in_use m) s x
              → (x ≡ ip) ⊎ Precedes (descending (request K N order svc cm d in_use m).config) ip x)
          × (w'.cluster ≡ (update_spec K svc (first_edit ip) st').0)
          × (reply ≡ (reply_to K svc (update_spec K svc (first_edit ip) st')).1))
        ⊎ ((w'.cluster ≡ st')
            × (reply ≡ with_error (out_of_ips svc.namespace pool false))
            × ((x : Addr) → ¬ IsFreeIpv4 N (request K N order svc cm d in_use m) s x))

    after_vips-WritesFirst :
        (B : AddLaws N)
        → map_implemented_services N services d.allow_share ≡ ok (in_use, m)
        → (s : N.IPSet) (pool : String) (ms : Managers N) (r : Result String)
        → GivesFirst N (request K N order svc cm d in_use m) s pool r
        → WritesFirst s pool (after_vips K N order svc cm st' (ms, r))
    after_vips-WritesFirst B mapped s pool ms r (inl (ip, e, free, first)) =
        let edit = first_edit ip in
        let unoccupied : All (λ (other : Service). Occupies other ip → ⊥) services =
          All-map _ _ services (λ other contained occupies. cc (contained ip occupies))
            (map_implemented_services-Contained N B services d.allow_share in_use m mapped) in
        subst (λ r. WritesFirst s pool (after_vips K N order svc cm st' (ms, r))) (sym e)
          (inl (ip, free, unoccupied, first, reply_to_state svc (update_spec K svc edit st'), refl))
    after_vips-WritesFirst B mapped s pool ms r (inr (e, none_)) =
        subst (λ r. WritesFirst s pool (after_vips K N order svc cm st' (ms, r))) (sym e)
          (inr (refl, refl, none_))

  -- What is left of a reconciliation that has come to the search.
  module _ (svc : Service) (cm_name cm_namespace : String) (w : World K N order) where
    module _ (cm : ConfigMap) (st st' : K.State) (d : Discovered) (services : List Service)
        (in_use : N.IPSet) (m : PortMap) where
      search_reached :
          is_empty svc.load_balancer_ip ≡ true
          → is_annotated svc ≡ false
          → get_or_create_config_map K cm_name cm_namespace w.cluster ≡ (st, ok cm)
          → discover_pool cm svc.namespace ≡ ok d
          → K.list_services (list_namespace K N order svc d) implementation_label st
            ≡ (st', ok services)
          → map_implemented_services N services d.allow_share ≡ ok (in_use, m)
          → sync_load_balancer K N order svc cm_name cm_namespace w
            ≡ after_vips K N order svc cm st' (
                discover_vips N
                  (request K N order svc cm d in_use m)
                  d.pool
                  svc.ip_family_policy
                  svc.ip_families
                  w.managers)
      unfolding sync_load_balancer check_legacy
      search_reached new plain configured found listed mapped =
          rw (sync_load_balancer, check_legacy, new, plain)
            (ap (after_config K N order svc w.managers) configured
              ∙ ap (after_pool K N order svc cm _) found
              ∙ ap (after_list K N order svc cm d w.managers) listed
              ∙ ap (after_map K N order svc cm d _) mapped)

module _ (K : Cluster) (N : Netipx) (order : PortMap → PortMap) (kind_of : String → Kind) where
  module _ (L : SetLaws N) (R : RangeLaws N) (B : AddLaws N) where
    module _ (svc : Service) (cm_name cm_namespace : String) (w : World K N order) where
      module _ (cm : ConfigMap) (st st' : K.State) (d : Discovered) (services : List Service)
          (in_use : N.IPSet) (m : PortMap) where
        -- A service without an address, neither in its specification nor in its annotation, of a single
        -- stack and whose first family is not IPv6, for which the config map, the pool of its
        -- namespace, the list of the implemented services and their addresses are found, no shared
        -- address is preferred, and the pool is a list of ranges with an IPv4 address: its
        -- reconciliation writes the first free IPv4 address of the pool to it, which no listed
        -- service occupies, and replies as the update does; or, exactly if none is free, it fails
        -- with the error that the pool is exhausted, and leaves the cluster as the list left it.
        pub sync_load_balancer-WritesFirst :
            (pools : Pools)
            → is_empty svc.load_balancer_ip ≡ true
            → is_annotated svc ≡ false
            → get_or_create_config_map K cm_name cm_namespace w.cluster ≡ (st, ok cm)
            → discover_pool cm svc.namespace ≡ ok d
            → K.list_services (list_namespace K N order svc d) implementation_label st
              ≡ (st', ok services)
            → map_implemented_services N services d.allow_share ≡ ok (in_use, m)
            → All
                (IsCoherent N kind_of (skips_ends (request K N order svc cm d in_use m).config))
                w.managers
            → of_range ≡ kind_of svc.namespace
            → OneStack svc.ip_family_policy
            → ipv6_first svc.ip_families ≡ false
            → is_empty (preferred_ip K N order svc d m) ≡ true
            → is_empty d.pool ≡ false
            → contains_byte b'/' d.pool ≡ false
            → split_ranges_by_ip_family N d.pool ≡ ok pools
            → is_empty pools.ipv4 ≡ false
            → (s : N.IPSet) × (build_addresses_from_range N d.pool ≡ ok s)
              × WritesFirst K N order svc cm st' d services in_use m s pools.ipv4
                  (sync_load_balancer K N order svc cm_name cm_namespace w)
        sync_load_balancer-WritesFirst pools new plain configured found listed mapped good ranged
              one first fresh given range cut v4 =
            let (s, built, gives) =
              discover_vips-GivesFirst N kind_of (request K N order svc cm d in_use m) L R d.pool
                pools svc.ip_family_policy svc.ip_families w.managers good ranged one first fresh
                given range cut v4 in
            let reached =
              search_reached K N order svc cm_name cm_namespace w cm st st' d services in_use m new
                plain configured found listed mapped in
            (
              s,
              built,
              subst (WritesFirst K N order svc cm st' d services in_use m s pools.ipv4)
                  (sym reached)
                  (after_vips-WritesFirst K N order svc cm st' d services in_use m B mapped s
                    pools.ipv4 _ _ gives),
            )
