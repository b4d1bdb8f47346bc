-- ===== src/Ipam/PoolTests.antt =====
-- The theorems on the pools that are built from texts, at ranges and CIDRs of both families.
use kube_vip_cloud_provider.Prelude.{
  String, ◌≡◌, refl, ◌↔◌, true, false, List, split, join, Any, ok,
}
use kube_vip_cloud_provider.Netip.{is6, Addr, z4}
use kube_vip_cloud_provider.Netipx.Model.{Span, model}
use kube_vip_cloud_provider.Netipx.Model.Laws.{model-SetLaws}
use kube_vip_cloud_provider.Netipx.Model.Ranges.{model-RangeLaws}
use kube_vip_cloud_provider.Ipam.AddressBuilder.Ranges.{Spans, build_addresses_from_range-Spans}
use kube_vip_cloud_provider.Ipam.AddressBuilder.Cidrs.{IsHost, IsCidrOf}
use kube_vip_cloud_provider.Ipam.AddressBuilder.Hosts.{
  build_hosts_from_cidr-IsHost, build_hosts_from_cidr-IsCidrOf,
}
use kube_vip_cloud_provider.Netipx.Model.Building.{model-PrefixLaws}
use kube_vip_cloud_provider.Netip.Print.{prefix_string}
use kube_vip_cloud_provider.Ipam.Families.{
  Pools, split_ranges_by_ip_family, split_cidrs_by_ip_family, add_ip_range, add_cidr,
}
use kube_vip_cloud_provider.Ipam.Families.Joined.{
  texts_of, range_text, split_cidrs_by_ip_family-join, split_ranges_by_ip_family-join,
}
use kube_vip_cloud_provider.Ipam.Families.Reread.{split_ranges_by_ip_family-reread}
use kube_vip_cloud_provider.Ipam.AddressBuilder.{
  parse_cidrs, build_addresses_from_range, build_hosts_from_cidr,
}
use kube_vip_cloud_provider.Ipam.Tests.{ipam_code}
use kube_vip_cloud_provider.Ipam.Histories.{
  ascending, skipping, span_of, cidr_pool, range_pool, cidr_built, range_built,
}

-- 10.0.1.6, the last address of the range
abbrev last_address : Addr
last_address = record { value = 167772422; zone = z4 }

build_addresses_from_range-Spans_example :
    (model.contains range_pool last_address ≡ true)
    ↔ Any (λ item. Spans item last_address) (split b',' "10.0.1.5-10.0.1.6")
build_addresses_from_range-Spans_example =
    build_addresses_from_range-Spans model model-RangeLaws "10.0.1.5-10.0.1.6" range_pool
      range_built last_address

-- 10.0.0.9 to 10.0.0.10
abbrev inner_pool : List Span
inner_pool = span_of 167772169 167772170

inner_built : build_hosts_from_cidr model "10.0.0.8/30" skipping ≡ ok inner_pool
unfolding ipam_code
inner_built = refl

build_hosts_from_cidr-IsHost_example :
    (whole : List Span) × (parse_cidrs model "10.0.0.8/30" ≡ ok whole)
    × ((a : Addr)
        → (model.contains inner_pool a ≡ true) ↔ Any (IsHost model true a) (model.prefixes whole))
build_hosts_from_cidr-IsHost_example =
    build_hosts_from_cidr-IsHost model model-PrefixLaws model-RangeLaws "10.0.0.8/30" skipping
      inner_pool inner_built

build_hosts_from_cidr-IsCidrOf_example :
    (model.contains cidr_pool last_address ≡ true)
    ↔ Any (IsCidrOf model last_address) (split b',' "10.0.0.8/30")
build_hosts_from_cidr-IsCidrOf_example =
    build_hosts_from_cidr-IsCidrOf model model-PrefixLaws model-RangeLaws "10.0.0.8/30" ascending
      cidr_pool refl cidr_built last_address

-- A pool with a range of each family.
abbrev mixed_ranges : String
mixed_ranges = "fd00::10-fd00::12,10.0.1.5-10.0.1.6"

abbrev mixed_pools : Pools
mixed_pools = record { ipv4 = "10.0.1.5-10.0.1.6"; ipv6 = "fd00::10-fd00::12" }

ranges_split : split_ranges_by_ip_family model mixed_ranges ≡ ok mixed_pools
unfolding ipam_code split_ranges_by_ip_family add_ip_range
ranges_split = refl

split_ranges_by_ip_family-join_example :
    (s : List Span) × (build_addresses_from_range model mixed_ranges ≡ ok s)
    × (mixed_pools.ipv4
        ≡ join "," (texts_of (λ r. is6 (model.from r)) (range_text model) false (model.ranges s)))
    × (mixed_pools.ipv6
        ≡ join "," (texts_of (λ r. is6 (model.from r)) (range_text model) true (model.ranges s)))
split_ranges_by_ip_family-join_example =
    split_ranges_by_ip_family-join model mixed_ranges mixed_pools ranges_split

split_ranges_by_ip_family-reread_example :
    (s : List Span) × (again : List Span) × (build_addresses_from_range model mixed_ranges ≡ ok s)
    × (build_addresses_from_range model "10.0.1.5-10.0.1.6" ≡ ok again)
    × ((a : Addr) → (model.contains again a ≡ true) ↔ ((model.contains s a ≡ true) × (a.zone ≡ z4)))
split_ranges_by_ip_family-reread_example =
    split_ranges_by_ip_family-reread model model-RangeLaws model-SetLaws mixed_ranges mixed_pools
      ranges_split refl

abbrev mixed_cidrs : String
mixed_cidrs = "fd00::10/126,10.0.0.8/30"

abbrev cidr_pools : Pools
cidr_pools = record { ipv4 = "10.0.0.8/30"; ipv6 = "fd00::10/126" }

cidrs_split : split_cidrs_by_ip_family model mixed_cidrs ≡ ok cidr_pools
unfolding ipam_code split_cidrs_by_ip_family add_cidr
cidrs_split = refl

split_cidrs_by_ip_family-join_example :
    (s : List Span) × (parse_cidrs model mixed_cidrs ≡ ok s)
    × (cidr_pools.ipv4
        ≡ join "," (texts_of (λ p. is6 p.addr) prefix_string false (model.prefixes s)))
    × (cidr_pools.ipv6
        ≡ join "," (texts_of (λ p. is6 p.addr) prefix_string true (model.prefixes s)))
split_cidrs_by_ip_family-join_example =
    split_cidrs_by_ip_family-join model mixed_cidrs cidr_pools cidrs_split
