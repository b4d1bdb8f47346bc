-- ===== src/Ipam/Families.antt =====
-- SplitCIDRsByIPFamily and SplitRangesByIPFamily of pkg/ipam/addressbuilder.go: a pool as two texts,
-- one of each family.
pub mod Joined
pub mod Items
pub mod Reread
use mathlib.Core.List.{foldl}
use kube_vip_cloud_provider.Prelude.{
  String, Bool, if◌then◌else◌, is_empty, append_text, Result, ◌>>=◌, ok,
}
use kube_vip_cloud_provider.Netip.{Prefix, is6}
use kube_vip_cloud_provider.Netip.Print.{addr_string, prefix_string}
use kube_vip_cloud_provider.Netipx.{Netipx}
use kube_vip_cloud_provider.Ipam.AddressBuilder.{parse_cidrs, build_addresses_from_range}

-- The two `strings.Builder`s.
pub record Pools : Type 0 where
  pub ipv4 : String
  pub ipv6 : String

abbrev pub no_pools : Pools
no_pools = record { ipv4 = ""; ipv6 = "" }

-- One entry written to a builder, after a comma if it is not the first.
abbrev pub write_entry : String → String → String
write_entry builder entry =
    append_text (if is_empty builder then builder else append_text builder ",") entry

abbrev pub write_to_family : Bool → Pools → String → Pools
write_to_family v6 pools entry =
    if v6
    then record pools { ipv6 = write_entry pools.ipv6 entry }
    else record pools { ipv4 = write_entry pools.ipv4 entry }

unfoldable pub add_cidr : Pools → Prefix → Pools
add_cidr pools p = write_to_family (is6 p.addr) pools (prefix_string p)

module _ (N : Netipx) where
  unfoldable pub add_ip_range : Pools → N.IPRange → Pools
  add_ip_range pools r =
      write_to_family (is6 (N.from r)) pools
        (append_text (addr_string (N.from r)) (append_text "-" (addr_string (N.to r))))

  unfoldable pub split_cidrs_by_ip_family : String → Result Pools
  split_cidrs_by_ip_family cidrs = do
    pool ← parse_cidrs N cidrs
    ok (foldl add_cidr no_pools (N.prefixes pool))

  unfoldable pub split_ranges_by_ip_family : String → Result Pools
  split_ranges_by_ip_family ranges = do
    pool ← build_addresses_from_range N ranges
    ok (foldl add_ip_range no_pools (N.ranges pool))
