-- ===== src/Ipam/AddressBuilder.antt =====
-- pkg/ipam/addressbuilder.go: address sets from the texts of the configuration.
pub mod Ranges
pub mod Cidrs
pub mod Hosts
use mathlib.Core.List.{foldl}
use kube_vip_cloud_provider.Prelude.{
  String, Bool, false, not, ◌&&◌, Option, none, some, List, [], ◌∷◌, ◌==◌, if◌then◌else◌, split,
  concat, Result, ◌>>=◌, errorf, ok, err,
}
use kube_vip_cloud_provider.Netip.{Addr, Prefix, next, prev, is4, is_single_ip}
use kube_vip_cloud_provider.Netip.Parse.{parse_addr, parse_prefix}
use kube_vip_cloud_provider.Netipx.{Netipx}
use kube_vip_cloud_provider.Config.{KubevipLbConfig}

-- `kubevipLBConfig != nil && kubevipLBConfig.SkipEndIPsInCIDR`
abbrev pub skips_ends : Option KubevipLbConfig → Bool
skips_ends none = false
skips_ends (some c) = c.skip_end_ips_in_cidr

-- The pieces of one item of a range list.
abbrev pub read_ends : String → List String → Result (Addr × Addr)
read_ends item (a ∷ b ∷ []) = do start ← parse_addr a; end ← parse_addr b; ok (start, end)
read_ends item _ = err (errorf (concat ("unable to parse IP range [" ∷ item ∷ "]" ∷ [])))

-- One item of a range list: `start-end`.
unfoldable pub item_range : String → Result (Addr × Addr)
item_range item = read_ends item (split b'-' item)

module _ (N : Netipx) where
  -- The loop of parseCidrs.
  unfoldable pub add_prefixes : List String → N.IPSetBuilder → Result N.IPSetBuilder
  add_prefixes [] builder = ok builder
  add_prefixes (c ∷ cidrs) builder = do
    p ← parse_prefix c
    add_prefixes cidrs (N.add_prefix builder p)

  unfoldable pub parse_cidrs : String → Result N.IPSet
  parse_cidrs cidr = do builder ← add_prefixes (split b',' cidr) N.new_builder; N.ip_set builder

  -- One round of the loop of buildHostsFromCidr.
  unfoldable pub add_hosts : Bool → N.IPSetBuilder → Prefix → N.IPSetBuilder
  add_hosts skip builder prefix =
      let r = N.range_of_prefix prefix in
      if not (is4 prefix.addr)
      then N.add_prefix builder prefix
      else if is_single_ip prefix && skip
      then N.add builder prefix.addr
      else if not (N.range_is_valid r)
      then builder
      else if prefix.bits == 31
      then N.add_range builder (N.range_from (N.from r) (N.to r))
      else if skip
      then N.add_range builder (N.range_from (next (N.from r)) (prev (N.to r)))
      else N.add_range builder (N.range_from (N.from r) (N.to r))

  unfoldable pub build_hosts_from_cidr : String → Option KubevipLbConfig → Result N.IPSet
  build_hosts_from_cidr cidr c = do
    unfiltered ← parse_cidrs cidr
    N.ip_set (foldl (add_hosts (skips_ends c)) N.new_builder (N.prefixes unfiltered))

  -- The loop of buildAddressesFromRange.
  unfoldable pub add_ranges : List String → N.IPSetBuilder → Result N.IPSetBuilder
  add_ranges [] builder = ok builder
  add_ranges (item ∷ items) builder = do
    ends ← item_range item
    add_ranges items (N.add_range builder (N.range_from ends.0 ends.1))

  unfoldable pub build_addresses_from_range : String → Result N.IPSet
  build_addresses_from_range ranges = do
    builder ← add_ranges (split b',' ranges) N.new_builder
    N.ip_set builder
