-- ===== src/Ipam/FreeAddress.antt =====
-- `FindFreeAddress` of pkg/ipam/ipam.go: the search of a pool for an address that is free.
-- The two `for` loops over a range run on fuel, as much as the range has addresses.
pub mod Loop
pub mod Search
pub mod Order
pub mod Extreme
use mathlib.Core.List.{reverse}
use kube_vip_cloud_provider.Prelude.{
  ℕ, zero, suc, ◌+◌, ◌-◌, Bool, true, false, not, ◌&&◌, ◌||◌, ◌==◌, if◌then◌else◌, List, [], ◌∷◌,
  Option, none, some, Result, ok, err, GoError, errorf, diverged,
}
use kube_vip_cloud_provider.Netip.{Addr, next, prev, addr_eq, is4, last_byte}
use kube_vip_cloud_provider.Netipx.{Netipx}
use kube_vip_cloud_provider.Config.{KubevipLbConfig}

unfoldable pub is_network_id_or_broadcast_ip : Addr → Bool
is_network_id_or_broadcast_ip ip = last_byte ip == 0 || last_byte ip == 255

-- How the loop over one range ends.
pub data Scan : Type 0 where
  found : Addr → Scan
  exhausted : Scan
  out_of_fuel : Scan

-- `for { if usable(ip) { return ip }; if ip == end { break }; ip = step(ip) }`
unfoldable pub scan : (Addr → Bool) → (Addr → Addr) → ℕ → Addr → Addr → Scan
scan usable step zero ip end = out_of_fuel
scan usable step (suc fuel) ip end =
    let rest = scan usable step fuel (step ip) end in
    if usable ip then found ip else if addr_eq ip end then exhausted else rest

-- `kubevipLBConfig != nil && kubevipLBConfig.ReturnIPInDescOrder`
abbrev pub descending : Option KubevipLbConfig → Bool
descending none = false
descending (some c) = c.return_ip_in_desc_order

module _ (N : Netipx) where
  -- The condition under which both loops return `ip`.
  unfoldable pub usable : N.IPSet → Addr → Bool
  unfolding is_network_id_or_broadcast_ip
  usable in_use ip =
      not (N.contains in_use ip) && (not (is4 ip) || not (is_network_id_or_broadcast_ip ip))

  -- One more than the distance of the ends: the number of addresses of a range.
  abbrev pub range_size : N.IPRange → ℕ
  range_size r = suc ((N.to r).value - (N.from r).value)

  unfoldable pub scan_range : Bool → N.IPSet → N.IPRange → Scan
  scan_range true in_use r = scan (usable in_use) prev (range_size r) (N.to r) (N.from r)
  scan_range false in_use r = scan (usable in_use) next (range_size r) (N.from r) (N.to r)

  -- The outer loop, over the ranges in the order of the search.
  unfoldable pub search_ranges : (N.IPRange → Scan) → List N.IPRange → Result Addr
  search_ranges scan_one [] = err (errorf "no address available")
  search_ranges scan_one (r ∷ rs) = elim (scan_one r) [
    | found ip ↦ ok ip
    | exhausted ↦ search_ranges scan_one rs
    | out_of_fuel ↦ err diverged
  ]

  unfoldable pub find_free_address : N.IPSet → N.IPSet → Option KubevipLbConfig → Result Addr
  find_free_address pool in_use c =
      if descending c
      then search_ranges (scan_range true in_use) (reverse (N.ranges pool))
      else search_ranges (scan_range false in_use) (N.ranges pool)
