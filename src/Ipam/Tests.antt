-- ===== src/Ipam/Tests.antt =====
-- Runs of the repository's own test inputs, over the interval implementation, and the search
-- theorem at one of them.
use kube_vip_cloud_provider.Prelude.{
  ℕ, String, ◌≡◌, refl, true, false, Option, none, some, List, [], ◌∷◌, split, Result, ok,
}
use kube_vip_cloud_provider.Netip.{z4, next, prev}
use kube_vip_cloud_provider.Netip.Print.{addr_string, prefix_string}
use kube_vip_cloud_provider.Netip.Parse.{parse_addr, parse_prefix}
use kube_vip_cloud_provider.Netipx.Model.{Span, model, intervals, prefixes_of, is_span}
use kube_vip_cloud_provider.Netipx.Model.Laws.{model-SetLaws}
use kube_vip_cloud_provider.Config.{KubevipLbConfig}
use kube_vip_cloud_provider.Ipam.FreeAddress.{
  find_free_address, usable, search_ranges, scan_range, scan,
}
use kube_vip_cloud_provider.Ipam.FreeAddress.Order.{Precedes}
use kube_vip_cloud_provider.Ipam.FreeAddress.Extreme.{FirstFree, find_free_address-FirstFree}
use kube_vip_cloud_provider.Ipam.AddressBuilder.{
  build_addresses_from_range, build_hosts_from_cidr, parse_cidrs, add_prefixes, add_hosts,
  add_ranges, item_range,
}
use kube_vip_cloud_provider.Ipam.Families.{
  split_cidrs_by_ip_family, split_ranges_by_ip_family, add_cidr, add_ip_range,
}
use kube_vip_cloud_provider.Ipam.Manager.{
  IpManager, allocate, at_namespace, use_range, use_cidr, find_available_host_from_range,
  find_available_host_from_cidr,
}

-- All the code that a run of the manager executes, for the tests to open at once.
unfoldable pub ipam_code : Unit {0}
unfolding find_available_host_from_range find_available_host_from_cidr at_namespace use_range
    use_cidr allocate find_free_address search_ranges scan_range scan usable next prev
    build_addresses_from_range build_hosts_from_cidr parse_cidrs add_prefixes add_hosts add_ranges
    item_range split_cidrs_by_ip_family split_ranges_by_ip_family add_cidr add_ip_range parse_addr
    parse_prefix addr_string prefix_string split is_span intervals prefixes_of
ipam_code = tt

abbrev descending_config : Option KubevipLbConfig
descending_config = some (record { return_ip_in_desc_order = true; skip_end_ips_in_cidr = false })

abbrev skip_config : Option KubevipLbConfig
skip_config = some (record { return_ip_in_desc_order = false; skip_end_ips_in_cidr = true })

abbrev host : List (IpManager model) × Result String → Result String
host p = p.1

range_asc :
    host (find_available_host_from_range model "default" "192.168.0.253-192.168.1.2" [] none [])
    ≡ ok "192.168.0.253"
unfolding ipam_code build_addresses_from_range
range_asc = refl

range_desc :
    host (
      find_available_host_from_range model "default" "192.168.0.253-192.168.1.2,fe80::10-fe80::12"
        [] descending_config [])
    ≡ ok "fe80::12"
unfolding ipam_code build_addresses_from_range
range_desc = refl

cidr_skip :
    host (find_available_host_from_cidr model "default" "192.168.0.200/29" [] skip_config [])
    ≡ ok "192.168.0.201"
unfolding ipam_code build_hosts_from_cidr
cidr_skip = refl

families :
    split_cidrs_by_ip_family model "192.168.0.200/30,2001::10/127,192.168.0.204/30"
    ≡ ok (record { ipv4 = "192.168.0.200/29"; ipv6 = "2001::10/127" })
unfolding ipam_code
families = refl

-- The pool has 192.168.1.0 and 192.168.1.255 at its ends, and 192.168.1.1 is taken.
abbrev span_of : ℕ → ℕ → List Span
span_of a b =
    record { first = record { value = a; zone = z4 }; last = record { value = b; zone = z4 } } ∷ []

abbrev taken_pool : List Span
taken_pool = span_of 3232235776 3232236031

abbrev in_use : List Span
in_use = span_of 3232236030 3232236030

find_free_address-FirstFree_example :
    FirstFree model taken_pool in_use
      (Precedes true)
      (find_free_address model taken_pool in_use descending_config)
find_free_address-FirstFree_example =
    find_free_address-FirstFree model taken_pool in_use model-SetLaws descending_config
