-- ===== src/Provider/RangeTests.antt =====
-- The search for an address of IPv4 in a pool of ranges of both families, and the reconciliation
-- that writes it.
use kube_vip_cloud_provider.Prelude.{
  String, ◌≡◌, refl, false, some, List, [], ◌∷◌, contains_byte, ok,
}
use kube_vip_cloud_provider.Netipx.Model.{model, Span}
use kube_vip_cloud_provider.Netipx.Model.Laws.{model-SetLaws}
use kube_vip_cloud_provider.Netipx.Model.Ranges.{model-RangeLaws}
use kube_vip_cloud_provider.Kube.{single_stack, ipv4_protocol}
use kube_vip_cloud_provider.Ipam.AddressBuilder.{build_addresses_from_range}
use kube_vip_cloud_provider.Ipam.Families.{Pools, split_ranges_by_ip_family, add_ip_range}
use kube_vip_cloud_provider.Ipam.Manager.Calls.{Kind, of_range}
use kube_vip_cloud_provider.Provider.Vips.{discover_vips}
use kube_vip_cloud_provider.Netipx.Model.Adding.{model-AddLaws}
use kube_vip_cloud_provider.Provider.Cluster.Store.{store}
use kube_vip_cloud_provider.Provider.Pool.{discover_pool, Discovered}
use kube_vip_cloud_provider.Provider.Sharing.{map_implemented_services}
use kube_vip_cloud_provider.Provider.Sync.{
  World, get_or_create_config_map, implementation_label, is_annotated, sync_load_balancer,
  assign_vips,
}
use kube_vip_cloud_provider.Provider.Sync.FromRange.{WritesFirst, sync_load_balancer-WritesFirst}
use kube_vip_cloud_provider.Provider.SyncTests.{api}
use kube_vip_cloud_provider.Provider.Vips.FromRange.{GivesFirst, discover_vips-GivesFirst}
use kube_vip_cloud_provider.Provider.Fixtures.{
  provider_code, request_beside, web_address, web, kubevip, in_order,
}

abbrev mixed_ranges : String
mixed_ranges = "fd00::10-fd00::12,10.0.0.7-10.0.0.9"

abbrev mixed_pools : Pools
mixed_pools = record { ipv4 = "10.0.0.7-10.0.0.9"; ipv6 = "fd00::10-fd00::12" }

abbrev always_range : String → Kind
always_range _ = of_range

ranges_split : split_ranges_by_ip_family model mixed_ranges ≡ ok mixed_pools
unfolding provider_code split_ranges_by_ip_family add_ip_range
ranges_split = refl

no_slash : contains_byte b'/' mixed_ranges ≡ false
unfolding contains_byte
no_slash = refl

first_address :
    (discover_vips model
      (request_beside web_address "")
      mixed_ranges
      (some single_stack)
      (ipv4_protocol ∷ [])
      []).1
    ≡ ok "10.0.0.7"
unfolding provider_code split_ranges_by_ip_family add_ip_range
first_address = refl

discover_vips-GivesFirst_example :
    (s : List Span) × (build_addresses_from_range model mixed_ranges ≡ ok s)
    × GivesFirst model
        (request_beside web_address "")
        s
        "10.0.0.7-10.0.0.9"
        (discover_vips model
          (request_beside web_address "")
          mixed_ranges
          (some single_stack)
          (ipv4_protocol ∷ [])
          []).1
discover_vips-GivesFirst_example =
    discover_vips-GivesFirst model always_range (request_beside web_address "") model-SetLaws
      model-RangeLaws mixed_ranges mixed_pools (some single_stack) (ipv4_protocol ∷ []) [] tt refl
      tt refl refl refl no_slash ranges_split refl

-- A new service beside one that has 10.0.0.8, in a namespace with the ranges.
abbrev range_world : World store model in_order
range_world = record {
  cluster = record {
    services = web ∷ api ∷ [];
    config_maps = kubevip (("range-dev", mixed_ranges) ∷ []) ∷ [];
  };
  managers = [];
}

abbrev found_ranges : Discovered
found_ranges = record { pool = mixed_ranges; global = false; allow_share = false }

config_found :
    get_or_create_config_map store "kubevip" "kube-system" range_world.cluster
    ≡ (range_world.cluster, ok (kubevip (("range-dev", mixed_ranges) ∷ [])))
unfolding provider_code
config_found = refl

pool_found : discover_pool (kubevip (("range-dev", mixed_ranges) ∷ [])) "dev" ≡ ok found_ranges
unfolding provider_code
pool_found = refl

services_found :
    store.list_services "dev" implementation_label range_world.cluster
    ≡ (range_world.cluster, ok (web ∷ []))
unfolding provider_code
services_found = refl

addresses_found : map_implemented_services model (web ∷ []) false ≡ ok (web_address, [])
unfolding provider_code
addresses_found = refl

new_api : is_annotated api ≡ false
unfolding provider_code
new_api = refl

written_address :
    (sync_load_balancer store model in_order api "kubevip" "kube-system"
      range_world).0.cluster.services
    ≡ web ∷ assign_vips "10.0.0.7" "" api ∷ []
unfolding provider_code split_ranges_by_ip_family add_ip_range
written_address = refl

sync_load_balancer-WritesFirst_example :
    (s : List Span) × (build_addresses_from_range model mixed_ranges ≡ ok s)
    × WritesFirst store model in_order api
        (kubevip (("range-dev", mixed_ranges) ∷ []))
        range_world.cluster
        found_ranges
        (web ∷ [])
        web_address
        []
        s
        "10.0.0.7-10.0.0.9"
        (sync_load_balancer store model in_order api "kubevip" "kube-system" range_world)
sync_load_balancer-WritesFirst_example =
    sync_load_balancer-WritesFirst store model in_order always_range model-SetLaws model-RangeLaws
      model-AddLaws api "kubevip" "kube-system" range_world
      (kubevip (("range-dev", mixed_ranges) ∷ [])) range_world.cluster range_world.cluster
      found_ranges (web ∷ []) web_address [] mixed_pools refl new_api config_found pool_found
      services_found addresses_found tt refl tt refl refl refl no_slash ranges_split refl
